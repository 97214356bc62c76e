-- ===== src/Notify/Texts.antt =====
-- notify/discord.go: the texts of a payload. The dates of the summaries and the percentages, which are
-- float64, are arguments: `percent current previous` is the text of the change and whether it is negative.
pub mod Bounded
use Prim.Native.Char.{code}
use Prim.Native.String.{String}
use pocket_settlement_monito.Prelude.{
  ℕ, zero, suc, ◌+◌, ◌-◌, Bool, true, false, ◌&&◌, List, [], ◌∷◌, ◌++◌, map, leb, ltb, ◌==◌, length,
  take, drop, if◌then◌else◌,
}
use pocket_settlement_monito.Prelude.Words.{Int64, sub64, slt}
use pocket_settlement_monito.Subscriber.Types.{Bytes}
use pocket_settlement_monito.Store.Models.{Time, Totals}
use pocket_settlement_monito.Notify.Embeds.{
  GroupTotals, OverserviceTotals, SupplierStats, Content, settlement_group, overservice_group,
  hourly_summary, daily_summary, WebhookPayload,
}
use pocket_settlement_monito.Notify.Format.{decimal, print_int, format_with_commas, format_pokt}

-- The bytes of an ASCII text.
abbrev pub codes : String → Bytes
codes String.[] = []
codes (String.◌∷◌ c s) = code c ∷ codes s

abbrev pub concat : List Bytes → Bytes
concat [] = []
concat (s ∷ rest) = s ++ concat rest

-- strings.Join
abbrev pub join : Bytes → List Bytes → Bytes
join separator [] = []
join separator (s ∷ []) = s
join separator (s ∷ t ∷ rest) = s ++ (separator ++ join separator (t ∷ rest))

abbrev pub truncate_address : Bytes → Bytes
truncate_address addr =
    if leb (length addr) 14
    then addr
    else take 10 addr ++ (codes "..." ++ drop (length addr - 4) addr)

pub record EmbedField : Type 0 where
  pub name : Bytes
  pub value : Bytes
  pub inline : Bool

pub record EmbedText : Type 0 where
  pub title : Bytes
  pub description : Bytes
  pub fields : List EmbedField

abbrev pub inline_field : String → Bytes → EmbedField
inline_field name value = record { name = codes name; value = value; inline = true }

abbrev pub estimate_embed_chars : Bytes → List EmbedField → ℕ
estimate_embed_chars title [] = length title
estimate_embed_chars title (f ∷ fields) =
    length f.name + length f.value + estimate_embed_chars title fields

abbrev pub embed_char_limit : ℕ
embed_char_limit = 5500

-- The fields, or the shorter text where they are too long.
abbrev pub fields_or_summary : Bytes → List EmbedField → Bytes → EmbedText
fields_or_summary title fields summary =
    if ltb embed_char_limit (estimate_embed_chars title fields)
    then record { title = title; description = summary; fields = [] }
    else record { title = title; description = []; fields = fields }

abbrev pub or_na : Bytes → Bytes
or_na [] = codes "N/A"
or_na (c ∷ s) = c ∷ s

abbrev pub address_count : List String → Bytes
address_count [] = codes "N/A"
address_count (a ∷ addrs) = format_with_commas (length (a ∷ addrs))

abbrev sorted_key_list : List String → Bytes
sorted_key_list keys = join (codes ", ") (map codes keys)

abbrev pub build_settlement_fields : GroupTotals → Bool → List EmbedField
build_settlement_fields g is_slash =
    (if is_slash
      then inline_field "Penalty" (format_pokt g.total_penalty_upokt)
        ∷ inline_field "Claimed" (format_pokt g.total_upokt)
        ∷ []
      else inline_field "POKT" (format_pokt g.total_upokt) ∷ [])
    ++ inline_field "Relays" (format_with_commas g.total_relays)
      ∷ inline_field "Est. Relays" (format_with_commas g.total_estimated_relays)
      ∷ inline_field "Suppliers" (address_count g.suppliers)
      ∷ inline_field "Services" (or_na (sorted_key_list g.services))
      ∷ []

abbrev pub compact_settlement_summary : ℕ → GroupTotals → Bool → Bytes
compact_settlement_summary count g is_slash =
    if is_slash
    then concat (
        decimal count
        ∷ codes " events: penalty "
        ∷ format_pokt g.total_penalty_upokt
        ∷ codes ", claimed "
        ∷ format_pokt g.total_upokt
        ∷ codes ", "
        ∷ format_with_commas g.total_relays
        ∷ codes " relays"
        ∷ [])
    else concat (
        decimal count
        ∷ codes " events: "
        ∷ format_pokt g.total_upokt
        ∷ codes ", "
        ∷ format_with_commas g.total_relays
        ∷ codes " relays"
        ∷ [])

-- "Block %d - %d Label"
abbrev pub group_title : Int64 → ℕ → Bytes → Bytes
group_title height count label =
    concat
      (codes "Block " ∷ print_int height ∷ codes " - " ∷ decimal count ∷ codes " " ∷ label ∷ [])

unfoldable pub settlement_text : Int64 → ℕ → Bytes → GroupTotals → Bool → EmbedText
settlement_text height count label g is_slash =
    fields_or_summary (group_title height count label) (build_settlement_fields g is_slash)
      (compact_settlement_summary count g is_slash)

abbrev pub overservice_fields : OverserviceTotals → List EmbedField
overservice_fields t =
    inline_field "Expected Burn" (format_pokt t.total_expected_burn)
    ∷ inline_field "Effective Burn" (format_pokt t.total_effective_burn)
    ∷ inline_field "Diff" (format_pokt t.diff)
    ∷ inline_field "Suppliers" (address_count t.suppliers)
    ∷ inline_field "Applications" (address_count t.apps)
    ∷ []

abbrev pub overservice_summary : ℕ → OverserviceTotals → Bytes
overservice_summary count t = concat (
    decimal count
    ∷ codes " overservice events: expected "
    ∷ format_pokt t.total_expected_burn
    ∷ codes ", effective "
    ∷ format_pokt t.total_effective_burn
    ∷ [])

unfoldable pub overservice_text : Int64 → ℕ → OverserviceTotals → EmbedText
overservice_text height count t =
    fields_or_summary (group_title height count (codes "Overservice")) (overservice_fields t)
      (overservice_summary count t)

-- The nine fields that both summaries have.
abbrev summary_fields : Totals → List EmbedField
summary_fields t =
    inline_field "Settled" (print_int t.claims_settled)
    ∷ inline_field "Expired" (print_int t.claims_expired)
    ∷ inline_field "Slashed" (print_int t.claims_slashed)
    ∷ inline_field "Discarded" (print_int t.claims_discarded)
    ∷ inline_field "POKT Earned" (format_pokt t.claimed_total_upokt)
    ∷ inline_field "POKT Lost" (format_pokt (sub64 t.claimed_total_upokt t.effective_total_upokt))
    ∷ inline_field "Total Relays" (format_with_commas t.num_relays)
    ∷ inline_field "Est. Relays" (format_with_commas t.estimated_relays)
    ∷ inline_field "Overserviced" (print_int t.overservice_count)
    ∷ []

module _ (percent : Int64 → Int64 → Bool × Bytes) where
  -- `+` before a number that is not negative.
  abbrev signed : Bool → Bytes → Bytes
  signed negative text = if negative then text else b'+' ∷ text

  abbrev pub format_comparison : Int64 → Int64 → Bytes → List Bytes
  format_comparison current previous label =
      if current == previous
      then []
      else if previous == 0
      then (if slt 0 current
          then concat (format_pokt current ∷ codes " " ∷ label ∷ codes " (new)" ∷ []) ∷ []
          else [])
      else let (negative, text) = percent current previous in
        concat (signed negative text ∷ codes "% " ∷ label ∷ []) ∷ []

  abbrev difference : Int64 → Int64 → Bytes → List Bytes
  difference current previous label =
      let d = sub64 current previous in
      if d == 0 then [] else concat (signed (slt d 0) (print_int d) ∷ label ∷ []) ∷ []

  abbrev or_no_change : List Bytes → Bytes
  or_no_change [] = codes "No change"
  or_no_change (p ∷ parts) = join (10 ∷ []) (p ∷ parts)

  abbrev pub build_day_comparison : Totals → Totals → Bytes
  build_day_comparison c p = or_no_change (
      format_comparison c.claimed_total_upokt p.claimed_total_upokt (codes "POKT earned")
      ++ (format_comparison (sub64 c.claimed_total_upokt c.effective_total_upokt)
            (sub64 p.claimed_total_upokt p.effective_total_upokt) (codes "POKT lost")
          ++ (difference c.claims_settled p.claims_settled (codes " settled claims")
              ++ difference c.claims_expired p.claims_expired (codes " expired claims"))))

  abbrev breakdown_line : SupplierStats → Bytes
  breakdown_line (addr, claimed) =
      truncate_address (codes addr) ++ (codes ": " ++ format_pokt claimed)

  abbrev breakdown_field : List SupplierStats → List EmbedField
  breakdown_field [] = []
  breakdown_field (s ∷ stats) =
      record {
        name = codes "Supplier Breakdown";
        value = join (10 ∷ []) (map breakdown_line (s ∷ stats));
        inline = false;
      }
      ∷ []

  module _ (hour_text day_text : Time → Bytes) where
    abbrev pub content_text : Content → Time → Bool → EmbedText
    content_text (settlement_group height count label g) ts is_slash =
        settlement_text height count (codes label) g is_slash
    content_text (overservice_group height count t) ts is_slash = overservice_text height count t
    content_text (hourly_summary t) ts is_slash = record {
      title = codes "Hourly Summary - " ++ hour_text ts;
      description = [];
      fields = summary_fields t;
    }
    content_text (daily_summary t previous stats) ts is_slash = record {
      title = codes "Daily Summary - " ++ day_text ts;
      description = [];
      fields =
          summary_fields t
          ++ (record {
            name = codes "vs Previous Day";
            value = build_day_comparison t previous;
            inline = false;
          }
              ∷ breakdown_field stats);
    }

    abbrev pub text_of : WebhookPayload → EmbedText
    text_of p = content_text p.content p.timestamp p.is_slash
