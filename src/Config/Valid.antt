-- ===== src/Config/Valid.antt =====
-- What a configuration that Validate accepts guarantees.
use Prim.Native.String.{String}
use text.Mathlib.TextEquality.{eq_iff}
use mathlib.Core.Bool.{true≢false}
use pocket_settlement_monito.Prelude.{
  ℕ, ◌-◌, ◌*◌, ◌/◌, ◌^◌, ◌<◌, ◌≤◌, ◌≡◌, ◌≢◌, refl, ◌⊎◌, inl, Bool, true, false, ◌&&◌, Option, none,
  some, List, [], ◌∷◌, All, arith, ◌↔◌,
}
use pocket_settlement_monito.Prelude.Eq.{◌=?◌, string_eq}
use pocket_settlement_monito.Prelude.Words.{Int64, two63, two64, slt, sle, slt-eq-ltb}
use pocket_settlement_monito.Subscriber.Delay.{next_delay, next_delay_bounds, least, le-power}
use pocket_settlement_monito.Config.{Config, ConfigError, failures, bad_scheme, tests, validate}

failures_nil : (cs : List (Bool × ConfigError)) → (failures cs ≡ []) ↔ All (λ c. c.0 ≡ false) cs
unfolding failures
failures_nil [] = ((λ _. tt), (λ _. refl))
failures_nil ((true, e) ∷ cs) = ((λ h. absurd (ground arith)), (λ h. absurd (true≢false h.0)))
failures_nil ((false, e) ∷ cs) =
    ((λ h. (refl, (failures_nil cs).0 h)), (λ h. (failures_nil cs).1 h.1))

abbrev pub HasScheme : Option String → Type 0
HasScheme parsed = (s : String) × (parsed ≡ some s) × ((s ≡ "tcp") ⊎ (s ≡ "http") ⊎ (s ≡ "https"))

pub record IsValid (parse_url : String → Option String) (c : Config) : Type 0 where
  pub rpc_url : c.comet_bft.rpc_url ≢ ""
  pub scheme : HasScheme (parse_url c.comet_bft.rpc_url)
  pub base : 0 < c.comet_bft.reconnect_base_delay
  pub order : c.comet_bft.reconnect_base_delay ≤ c.comet_bft.reconnect_max_delay
  pub max : c.comet_bft.reconnect_max_delay < two63
  pub heartbeat : (0 < c.comet_bft.heartbeat_timeout) × (c.comet_bft.heartbeat_timeout < two63)
  pub path : c.database.path ≢ ""
  pub addr : (c.metrics.enabled ≡ false) ⊎ (c.metrics.addr ≢ "")
  pub retention : c.database.retention < two63

bad_scheme-HasScheme : (p : Option String) → (bad_scheme p ≡ false) ↔ HasScheme p
bad_scheme-HasScheme none = ((λ h. absurd (true≢false h)), (λ h. absurd (ground arith)))
bad_scheme-HasScheme (some s) = (
  (λ h. (s, refl, ground (arith, eq_iff "tcp" s, eq_iff "http" s, eq_iff "https" s))),
  (λ h. ground (arith, eq_iff "tcp" s, eq_iff "http" s, eq_iff "https" s)),
)

positive_iff : (a : Int64) → a < two64 → (sle a 0 ≡ false) ↔ ((0 < a) × (a < two63))
positive_iff a bound = ground arith

non_negative_iff : (a : Int64) → a < two64 → (slt a 0 ≡ false) ↔ (a < two63)
non_negative_iff a bound = ground arith

not_empty_iff : (s : String) → ((s =? "") ≡ false) ↔ (s ≢ "")
not_empty_iff s = ground (arith, eq_iff s "")

addr_iff : (on : Bool) (s : String) → ((on && s =? "") ≡ false) ↔ ((on ≡ false) ⊎ (s ≢ ""))
addr_iff true s = ground (arith, eq_iff s "")
addr_iff false s = ((λ _. inl refl), (λ _. refl))

-- Validate finds no error exactly if: the RPC URL and the path of the database are not empty, the URL has
-- one of the schemes tcp, http, https, the base delay is positive and at most the maximum, the
-- heartbeat's timeout is positive, the retention is not negative, and metrics that are on have an address.
-- The durations are any int64.
pub validate_iff :
    (parse_url : String → Option String) (c : Config)
    → c.comet_bft.reconnect_base_delay < two64
    → c.comet_bft.reconnect_max_delay < two64
    → c.comet_bft.heartbeat_timeout < two64
    → c.database.retention < two64
    → (validate parse_url c ≡ []) ↔ IsValid parse_url c
unfolding validate
validate_iff parse_url c base max heartbeat retention = (
  (λ h. accepted ((failures_nil (tests parse_url c)).0 h)),
  (λ v. (failures_nil (tests parse_url c)).1 (accepts v)),
)
  where
    accepted : All (λ t. t.0 ≡ false) (tests parse_url c) → IsValid parse_url c
    accepted (url, (b, (m, (p, (a, (o, (h, (s, (r, _))))))))) =
        let (low, small) = (positive_iff c.comet_bft.reconnect_base_delay base).0 b in
        let (low', small') = (positive_iff c.comet_bft.reconnect_max_delay max).0 m in
        record {
          rpc_url = (not_empty_iff c.comet_bft.rpc_url).0 url;
          scheme = (bad_scheme-HasScheme (parse_url c.comet_bft.rpc_url)).0 (rw url at s);
          base = low;
          order =
              ground (
                arith,
                slt-eq-ltb c.comet_bft.reconnect_max_delay c.comet_bft.reconnect_base_delay,
              );
          max = small';
          heartbeat = (positive_iff c.comet_bft.heartbeat_timeout heartbeat).0 h;
          path = (not_empty_iff c.database.path).0 p;
          addr = (addr_iff c.metrics.enabled c.metrics.addr).0 a;
          retention = (non_negative_iff c.database.retention retention).0 r;
        }

    accepts : IsValid parse_url c → All (λ t. t.0 ≡ false) (tests parse_url c)
    accepts v =
        let url = (not_empty_iff c.comet_bft.rpc_url).1 v.rpc_url in
        (
          url,
          (
            (positive_iff c.comet_bft.reconnect_base_delay base).1 (v.base, omega arith),
            (
              (positive_iff c.comet_bft.reconnect_max_delay max).1 (omega arith, v.max),
              (
                (not_empty_iff c.database.path).1 v.path,
                (
                  (addr_iff c.metrics.enabled c.metrics.addr).1 v.addr,
                  (
                    ground arith,
                    (
                      (positive_iff c.comet_bft.heartbeat_timeout heartbeat).1 v.heartbeat,
                      (
                        rw url ((bad_scheme-HasScheme (parse_url c.comet_bft.rpc_url)).1 v.scheme),
                        ((non_negative_iff c.database.retention retention).1 v.retention, (tt)),
                      ),
                    ),
                  ),
                ),
              ),
            ),
          ),
        )

-- Between two attempts to reconnect, a configuration that Validate accepts makes the subscriber wait, at
-- least four fifths of the base delay: for a maximum below a quarter of the range of int64, and
-- whatever number below its bound the generator returns.
pub validate-next_delay :
    (parse_url : String → Option String) (c : Config) (rand_int64n : Int64 → Int64) (attempt : ℕ)
    → ((n : Int64) → 0 < n → rand_int64n n < n)
    → c.comet_bft.reconnect_base_delay < two64
    → c.comet_bft.reconnect_max_delay < 4611686018427387904
    → c.comet_bft.heartbeat_timeout < two64
    → c.database.retention < two64
    → validate parse_url c ≡ []
    → let base = c.comet_bft.reconnect_base_delay in
      let delay = next_delay rand_int64n attempt base c.comet_bft.reconnect_max_delay in
      (0 < delay) × (base - base / 5 ≤ delay)
validate-next_delay parse_url c rand attempt random base max heartbeat retention accepted =
    let valid = (validate_iff parse_url c base (omega arith) heartbeat retention).0 accepted in
    let bounds =
      next_delay_bounds rand attempt c.comet_bft.reconnect_base_delay
        c.comet_bft.reconnect_max_delay random max valid.order in
    let b = c.comet_bft.reconnect_base_delay in
    let grown = le-power b attempt in
    let reached : b ≤ least (b * 2 ^ attempt) c.comet_bft.reconnect_max_delay =
      ground (arith, grown, valid.order) in
    (omega (arith, bounds, reached, valid.base), omega (arith, bounds, reached))
