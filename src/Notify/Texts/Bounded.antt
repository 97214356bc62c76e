-- ===== src/Notify/Texts/Bounded.antt =====
-- The length of the texts of a block's notifications.
use Prim.Native.String.{String}
use pocket_settlement_monito.Prelude.{
  ℕ, ◌+◌, ◌≤◌, ◌≡◌, refl, inl, inr, Bool, true, false, List, [], ◌∷◌, ◌++◌, ltb, length,
  length-append, All, All-append, arith, Bool-cases, if◌then◌else◌,
}
use pocket_settlement_monito.Prelude.Words.{Int64}
use pocket_settlement_monito.Subscriber.Types.{Bytes}
use pocket_settlement_monito.Store.Models.{
  Time, Settlement, OverserviceEvent, settled, expired, slashed, discarded,
}
use pocket_settlement_monito.Notify.{NotificationsConfig}
use pocket_settlement_monito.Notify.Embeds.{
  GroupTotals, OverserviceTotals, WebhookPayload, one_if_some, build_block_embeds,
  build_settlement_group_embed, build_overservice_embed, enabled, color_settlement,
  color_expiration, color_slash, color_discard,
}
use pocket_settlement_monito.Notify.Format.{decimal, print_int, format_with_commas, format_pokt}
use pocket_settlement_monito.Notify.Texts.{
  codes, concat, EmbedField, EmbedText, estimate_embed_chars, fields_or_summary, group_title,
  build_settlement_fields, overservice_fields, compact_settlement_summary, overservice_summary,
  settlement_text, overservice_text, text_of,
}
use pocket_settlement_monito.Notify.Format.Lengths.{
  length-decimal, length-print_int, length-format_with_commas, length-format_pokt,
}

-- The characters that Discord counts, but for the footer.
abbrev pub chars : EmbedText → ℕ
chars t = estimate_embed_chars t.title t.fields + length t.description

abbrev sum_lengths : List Bytes → ℕ
sum_lengths [] = 0
sum_lengths (s ∷ rest) = length s + sum_lengths rest

length-concat : (l : List Bytes) → length (concat l) ≡ sum_lengths l
length-concat [] = refl
length-concat (s ∷ rest) = omega (arith, length-append s (concat rest), length-concat rest)

length-concat-le : (l : List Bytes) (k : ℕ) → sum_lengths l ≤ k → length (concat l) ≤ k
length-concat-le l k fits = omega (arith, length-concat l)

length-group_title :
    (height : Int64) (count : ℕ) (label : Bytes)
    → length (group_title height count label) ≤ 51 + length label
length-group_title height count label = omega (
  arith,
  length-concat
      (codes "Block " ∷ print_int height ∷ codes " - " ∷ decimal count ∷ codes " " ∷ label ∷ []),
  length-print_int height,
  length-decimal count,
)

fields_or_summary-chars :
    (title : Bytes) (fields : List EmbedField) (summary : Bytes)
    → length title + length summary ≤ 5500
    → chars (fields_or_summary title fields summary) ≤ 5500
fields_or_summary-chars title fields summary short =
    elim (Bool-cases (ltb 5500 (estimate_embed_chars title fields))) [
      | inl long ↦ rw long short
      | inr fits ↦ rw fits (ground arith)
    ]

compact_settlement_summary-length :
    (count : ℕ) (g : GroupTotals) (is_slash : Bool)
    → length (compact_settlement_summary count g is_slash) ≤ 250
compact_settlement_summary-length count g true =
    length-concat-le
      (decimal count
        ∷ codes " events: penalty "
        ∷ format_pokt g.total_penalty_upokt
        ∷ codes ", claimed "
        ∷ format_pokt g.total_upokt
        ∷ codes ", "
        ∷ format_with_commas g.total_relays
        ∷ codes " relays"
        ∷ [])
      250
      (omega (
        arith,
        length-decimal count,
        length-format_pokt g.total_penalty_upokt,
        length-format_pokt g.total_upokt,
        length-format_with_commas g.total_relays,
      ))
compact_settlement_summary-length count g false =
    length-concat-le
      (decimal count
        ∷ codes " events: "
        ∷ format_pokt g.total_upokt
        ∷ codes ", "
        ∷ format_with_commas g.total_relays
        ∷ codes " relays"
        ∷ [])
      250
      (omega (
        arith,
        length-decimal count,
        length-format_pokt g.total_upokt,
        length-format_with_commas g.total_relays,
      ))

overservice_summary-length :
    (count : ℕ) (t : OverserviceTotals) → length (overservice_summary count t) ≤ 250
overservice_summary-length count t =
    length-concat-le
      (decimal count
        ∷ codes " overservice events: expected "
        ∷ format_pokt t.total_expected_burn
        ∷ codes ", effective "
        ∷ format_pokt t.total_effective_burn
        ∷ [])
      250
      (omega (
        arith,
        length-decimal count,
        length-format_pokt t.total_expected_burn,
        length-format_pokt t.total_effective_burn,
      ))

settlement_text-chars :
    (height : Int64) (count : ℕ) (label : Bytes) (g : GroupTotals) (is_slash : Bool)
    → length label ≤ 100
    → chars (settlement_text height count label g is_slash) ≤ 5500
unfolding settlement_text
settlement_text-chars height count label g is_slash short =
    fields_or_summary-chars (group_title height count label) (build_settlement_fields g is_slash)
      (compact_settlement_summary count g is_slash)
      (omega (
        arith,
        length-group_title height count label,
        compact_settlement_summary-length count g is_slash,
      ))

overservice_text-chars :
    (height : Int64) (count : ℕ) (t : OverserviceTotals)
    → chars (overservice_text height count t) ≤ 5500
unfolding overservice_text
overservice_text-chars height count t =
    fields_or_summary-chars (group_title height count (codes "Overservice")) (overservice_fields t)
      (overservice_summary count t)
      (omega (
        arith,
        length-group_title height count (codes "Overservice"),
        overservice_summary-length count t,
      ))

module _ (percent : Int64 → Int64 → Bool × Bytes) (hour_text day_text : Time → Bytes) where
  abbrev pub IsBounded : WebhookPayload → Type 0
  IsBounded p = chars (text_of percent hour_text day_text p) ≤ 5500

  group-IsBounded :
      (height : Int64) (ts : Time) (ss : List Settlement) (color : ℕ) (label : String)
      (is_slash : Bool)
      → length (codes label) ≤ 100
      → IsBounded (build_settlement_group_embed height ts ss color label is_slash)
  group-IsBounded height ts ss color label is_slash short =
      settlement_text-chars height (length ss) (codes label) _ is_slash short

  overservice-IsBounded :
      (height : Int64) (ts : Time) (os : List OverserviceEvent)
      → IsBounded (build_overservice_embed height ts os)
  overservice-IsBounded height ts os = overservice_text-chars height (length os) _

  one_if_some-IsBounded :
      {A : Type 0} (xs : List A) (p : WebhookPayload)
      → IsBounded p
      → All IsBounded (one_if_some xs p)
  one_if_some-IsBounded [] p h = tt
  one_if_some-IsBounded (x ∷ xs) p h = (h, tt)

  with_group-IsBounded :
      (height : Int64) (ts : Time) (ss : List Settlement) (color : ℕ) (label : String)
      (is_slash : Bool) (rest : List WebhookPayload)
      → length (codes label) ≤ 100
      → All IsBounded rest
      → All IsBounded
          (one_if_some ss (build_settlement_group_embed height ts ss color label is_slash) ++ rest)
  with_group-IsBounded height ts ss color label is_slash rest short bounded =
      let p = build_settlement_group_embed height ts ss color label is_slash in
      All-append IsBounded (one_if_some ss p) rest
        (one_if_some-IsBounded ss p (group-IsBounded height ts ss color label is_slash short))
        bounded

  -- Every notification of a block keeps to the limit of 5500 characters, title, fields and description
  -- together: where the fields would exceed it, the shorter text never does.
  pub build_block_embeds-IsBounded :
      (cfg : NotificationsConfig) (height : Int64) (ts : Time) (ss : List Settlement)
      (os : List OverserviceEvent)
      → All IsBounded (build_block_embeds cfg height ts ss os)
  unfolding build_block_embeds
  build_block_embeds-IsBounded cfg height ts ss os =
      with_group-IsBounded height ts (enabled cfg.notify_settlements settled ss) color_settlement
        "Settlements" false _ (omega arith)
        (with_group-IsBounded height ts (enabled cfg.notify_expirations expired ss) color_expiration
          "Expirations" false _ (omega arith)
          (with_group-IsBounded height ts (enabled cfg.notify_slashes slashed ss) color_slash
            "Slashes" true _ (omega arith)
            (with_group-IsBounded height ts (enabled cfg.notify_discards discarded ss) color_discard
              "Discards" false _ (omega arith) (if_on cfg.notify_overservice))))
    where
      if_on :
          (on : Bool)
          → All IsBounded (if on then one_if_some os (build_overservice_embed height ts os) else [])
      if_on true =
          one_if_some-IsBounded os (build_overservice_embed height ts os)
            (overservice-IsBounded height ts os)
      if_on false = tt
