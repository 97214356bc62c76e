-- ===== src/Notify/Embeds.antt =====
-- notify/discord.go: the payloads that a block and a summary give. A payload is the values that its texts
-- print, with the colour and the flag by which slashes are routed; the texts are in Notify/Texts.
use pocket_settlement_monito.Prelude.{
  ℕ, String, Bool, true, false, ◌&&◌, List, [], ◌∷◌, ◌++◌, fold, length, select, if◌then◌else◌,
}
use pocket_settlement_monito.Prelude.Eq.{◌=?◌, string_eq}
use pocket_settlement_monito.Prelude.Maps.{add_to}
use pocket_settlement_monito.Prelude.Words.{Int64, add64, sub64}
use pocket_settlement_monito.Store.Models.{
  Time, EventType, settled, expired, slashed, discarded, Settlement, OverserviceEvent, Totals,
}
use pocket_settlement_monito.Notify.{NotificationsConfig}

abbrev pub color_slash : ℕ
color_slash = 16711680

abbrev pub color_expiration : ℕ
color_expiration = 16748544

abbrev pub color_settlement : ℕ
color_settlement = 3066993

abbrev pub color_overservice : ℕ
color_overservice = 15844367

abbrev pub color_summary : ℕ
color_summary = 3447003

abbrev pub color_discard : ℕ
color_discard = 9807270

-- `totalUpokt` and the other sums of a group of settlements, with its two sets.
pub record GroupTotals : Type 0 where
  pub total_upokt : Int64
  pub total_relays : Int64
  pub total_estimated_relays : Int64
  pub total_penalty_upokt : Int64
  pub suppliers : List String
  pub services : List String

pub record OverserviceTotals : Type 0 where
  pub total_expected_burn : Int64
  pub total_effective_burn : Int64
  pub diff : Int64
  pub suppliers : List String
  pub apps : List String

-- A supplier's address and what it claimed.
abbrev pub SupplierStats : Type 0
SupplierStats = String × Int64

pub data Content : Type 0 where
  -- "Block H - N Label"
  settlement_group : Int64 → ℕ → String → GroupTotals → Content
  overservice_group : Int64 → ℕ → OverserviceTotals → Content
  hourly_summary : Totals → Content
  -- The day, the day before, and the breakdown by supplier.
  daily_summary : Totals → Totals → List SupplierStats → Content

pub record WebhookPayload : Type 0 where
  pub content : Content
  pub color : ℕ
  pub timestamp : Time
  pub is_slash : Bool

abbrev no_totals : GroupTotals
no_totals = record {
  total_upokt = 0;
  total_relays = 0;
  total_estimated_relays = 0;
  total_penalty_upokt = 0;
  suppliers = [];
  services = [];
}

abbrev add_to_group : GroupTotals → Settlement → GroupTotals
add_to_group g s = record {
  total_upokt = add64 g.total_upokt s.claimed_upokt;
  total_relays = add64 g.total_relays s.num_relays;
  total_estimated_relays = add64 g.total_estimated_relays s.estimated_relays;
  total_penalty_upokt = add64 g.total_penalty_upokt s.slash_penalty_upokt;
  suppliers = add_to s.supplier_operator_address g.suppliers;
  services = if s.service_id =? "" then g.services else add_to s.service_id g.services;
}

abbrev pub build_settlement_group_embed :
    Int64 → Time → List Settlement → ℕ → String → Bool → WebhookPayload
build_settlement_group_embed height ts ss color label is_slash_group = record {
  content = settlement_group height (length ss) label (fold add_to_group no_totals ss);
  color = color;
  timestamp = ts;
  is_slash = is_slash_group;
}

abbrev no_overservice : OverserviceTotals
no_overservice = record {
  total_expected_burn = 0;
  total_effective_burn = 0;
  diff = 0;
  suppliers = [];
  apps = [];
}

abbrev add_overservice : OverserviceTotals → OverserviceEvent → OverserviceTotals
add_overservice t o = record t {
  total_expected_burn = add64 t.total_expected_burn o.expected_burn_upokt;
  total_effective_burn = add64 t.total_effective_burn o.effective_burn_upokt;
  suppliers = add_to o.supplier_operator_address t.suppliers;
  apps = add_to o.application_address t.apps;
}

abbrev pub build_overservice_embed : Int64 → Time → List OverserviceEvent → WebhookPayload
build_overservice_embed height ts os =
    let t = fold add_overservice no_overservice os in
    record {
      content =
          overservice_group height (length os)
            (record t { diff = sub64 t.total_expected_burn t.total_effective_burn });
      color = color_overservice;
      timestamp = ts;
      is_slash = false;
    }

abbrev pub build_hourly_summary_embed : Time → Totals → WebhookPayload
build_hourly_summary_embed hour summary = record {
  content = hourly_summary summary;
  color = color_summary;
  timestamp = hour;
  is_slash = false;
}

abbrev pub build_daily_summary_embed : Time → Totals → Totals → List SupplierStats → WebhookPayload
build_daily_summary_embed day summary previous breakdown = record {
  content = daily_summary summary previous breakdown;
  color = color_summary;
  timestamp = day;
  is_slash = false;
}

abbrev pub same_type : EventType → EventType → Bool
same_type settled settled = true
same_type expired expired = true
same_type slashed slashed = true
same_type discarded discarded = true
same_type _ _ = false

-- The settlements of a type, none where the configuration turns the type off.
abbrev pub enabled : Bool → EventType → List Settlement → List Settlement
enabled on kind ss = select (λ s. on && same_type s.event_type kind) ss

abbrev pub one_if_some : {A : Type 0} → List A → WebhookPayload → List WebhookPayload
one_if_some [] p = []
one_if_some (x ∷ xs) p = p ∷ []

unfoldable pub build_block_embeds :
    NotificationsConfig
    → Int64
    → Time
    → List Settlement
    → List OverserviceEvent
    → List WebhookPayload
build_block_embeds cfg height ts ss os =
    let settlements = enabled cfg.notify_settlements settled ss in
    let expirations = enabled cfg.notify_expirations expired ss in
    let slashes = enabled cfg.notify_slashes slashed ss in
    let discards = enabled cfg.notify_discards discarded ss in
    one_if_some settlements
      (build_settlement_group_embed height ts settlements color_settlement "Settlements" false)
    ++ (one_if_some expirations
          (build_settlement_group_embed height ts expirations color_expiration "Expirations" false)
        ++ (one_if_some slashes
              (build_settlement_group_embed height ts slashes color_slash "Slashes" true)
            ++ (one_if_some discards
                  (build_settlement_group_embed height ts discards color_discard "Discards" false)
                ++ (if cfg.notify_overservice
                    then one_if_some os (build_overservice_embed height ts os)
                    else []))))
