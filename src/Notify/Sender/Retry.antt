-- ===== src/Notify/Sender/Retry.antt =====
-- The posts of one message: how many, and which result follows from which answers.
use pocket_settlement_monito.Prelude.{
  ℕ, zero, suc, ◌+◌, ◌≤◌, ◌<◌, ◌≡◌, refl, sym, ap, ◌∙◌, subst, inl, inr, true, false, Bool-cases,
  ◌==◌, arith, ==_iff,
}
use pocket_settlement_monito.Notify.Sender.{
  Response, request_failed, status, http_failed, rate_limited, context_done, bad_status, SendResult,
  sent, failed, max_retries, is_success, Network, settle, send_from, send_with_retry,
}

module _ (net : Network) where
  -- The attempt met a 429 and its wait went to the end.
  abbrev pub IsRetried : ℕ → Type 0
  IsRetried k = (net.answer k ≡ status 429) × (net.context_ends k ≡ false)

  -- What the answer to the last attempt `k`, of those up to `last`, must be for each result.
  abbrev pub Verdict : ℕ → ℕ → SendResult → Type 0
  Verdict last k sent = (code : ℕ) × ((net.answer k ≡ status code) × (is_success code ≡ true))
  Verdict last k (failed http_failed) = net.answer k ≡ request_failed
  Verdict last k (failed bad_status) =
      (code : ℕ) × ((net.answer k ≡ status code)
        × ((is_success code ≡ false) × ((code == 429) ≡ false)))
  Verdict last k (failed context_done) =
      (net.answer k ≡ status 429) × ((net.context_ends k ≡ true) × (k < last))
  Verdict last k (failed rate_limited) = (net.answer k ≡ status 429) × (k ≡ last)

  pub record Explained (last first : ℕ) (result : SendResult × ℕ) : Type 0 where
    pub final_attempt : ℕ
    pub from_first : first ≤ final_attempt
    pub to_last : final_attempt ≤ last
    pub retried : (j : ℕ) → first ≤ j → j < final_attempt → IsRetried j
    pub posts : result.1 ≡ final_attempt + 1
    pub verdict : Verdict last final_attempt result.0

  -- The attempt was the final one.
  final : (last a : ℕ) (r : SendResult) → a ≤ last → Verdict last a r → Explained last a (r, a + 1)
  final last a r h v = record {
    final_attempt = a;
    from_first = omega arith;
    to_last = h;
    retried = λ j l u. absurd (omega arith);
    posts = refl;
    verdict = v;
  }

  settle-Explained :
      (last a : ℕ) (limited : SendResult × ℕ) (answer : Response)
      → a ≤ last
      → net.answer a ≡ answer
      → (net.answer a ≡ status 429 → Explained last a limited)
      → Explained last a (settle answer limited a)
  settle-Explained last a limited request_failed h e l = final last a (failed http_failed) h e
  settle-Explained last a limited (status code) h e l = elim (Bool-cases (is_success code)) [
    | inl good ↦ rw good (final last a sent h (code, (e, good)))
    | inr bad ↦ elim (Bool-cases (code == 429)) [
      | inl hit ↦ rw (bad, hit) (l (e ∙ ap status ((==_iff code 429).0 hit)))
      | inr miss ↦ rw (bad, miss) (final last a (failed bad_status) h (code, (e, (bad, miss))))
    ]
  ]

  -- An attempt that was retried goes before.
  before :
      (last a : ℕ) (r : SendResult × ℕ)
      → IsRetried a
      → Explained last (a + 1) r
      → Explained last a r
  before last a r h e = record {
    final_attempt = e.final_attempt;
    from_first = omega (arith, e.from_first);
    to_last = e.to_last;
    retried = λ j l u. elim (Bool-cases (j == a)) [
      | inl same ↦ subst IsRetried (sym ((==_iff j a).0 same)) h
      | inr other ↦ e.retried j (ground arith) u
    ];
    posts = e.posts;
    verdict = e.verdict;
  }

  send_from-Explained : (retries a : ℕ) → Explained (a + retries) a (send_from net retries a)
  unfolding send_from
  send_from-Explained zero a =
      settle-Explained (a + 0) a _ (net.answer a) (omega arith) refl
        λ e. final (a + 0) a (failed rate_limited) (omega arith) (e, omega arith)
  send_from-Explained (suc retries) a =
      settle-Explained (a + suc retries) a _ (net.answer a) (omega arith) refl λ e.
        elim (Bool-cases (net.context_ends a)) [
          | inl ends ↦ rw ends (
              final (a + suc retries) a (failed context_done) (omega arith)
                (e, (ends, omega arith)))
          | inr goes_on ↦ rw goes_on (
              before (a + suc retries) a _ (e, goes_on)
                (subst (λ last. Explained last (a + 1) (send_from net retries (a + 1)))
                  (omega arith) (send_from-Explained retries (a + 1))))
        ]

-- sendWithRetry makes at most four posts and stops at the first attempt that is not a 429 whose wait goes
-- to its end: every attempt before was such a 429. It reports success where that attempt's status is 200 or
-- 204, a failed request where the client returned an error, the status where it is any other but 429, the
-- context's end where the context ended in the wait after a 429, and the rate limit where the fourth
-- attempt was a 429.
pub send_with_retry_lem : (net : Network) → Explained net max_retries 0 (send_with_retry net)
unfolding send_with_retry
send_with_retry_lem net = send_from-Explained net max_retries 0
