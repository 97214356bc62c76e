-- ===== src/Examples/Texts.antt =====
-- Amounts and notifications as they are printed.
use pocket_settlement_monito.Prelude.{◌≡◌, refl, Bool, false, [], All, arith}
use pocket_settlement_monito.Prelude.Words.{Int64, two63}
use pocket_settlement_monito.Subscriber.Types.{Bytes}
use pocket_settlement_monito.Store.Models.{Time}
use pocket_settlement_monito.Notify.Embeds.{build_block_embeds}
use pocket_settlement_monito.Notify.Format.{digits, with_commas, format_with_commas, format_pokt}
use pocket_settlement_monito.Notify.Format.Pokt.{Reads, format_pokt-Reads}
use pocket_settlement_monito.Notify.Texts.{codes, truncate_address}
use pocket_settlement_monito.Notify.Texts.Bounded.{IsBounded, build_block_embeds-IsBounded}
use pocket_settlement_monito.Examples.Notify.{everything_on, settlements}

format_pokt-Reads_example : Reads 1234560000 (format_pokt 1234560000)
format_pokt-Reads_example = format_pokt-Reads 1234560000 (ground arith) (ground arith)

printed : format_pokt 1234560000 ≡ codes "1,234.560000 POKT"
unfolding format_pokt format_with_commas with_commas digits
printed = refl

-- The least int64 has no magnitude of its own: the sign is printed twice.
printed_least : format_pokt two63 ≡ codes "--9,223,372,036,854.-775808 POKT"
unfolding format_pokt format_with_commas with_commas digits
printed_least = refl

shortened : truncate_address (codes "pokt1abcdefghijklmnop") ≡ codes "pokt1abcde...mnop"
shortened = refl

abbrev no_change : Int64 → Int64 → Bool × Bytes
no_change current previous = (false, codes "0.0")

abbrev no_date : Time → Bytes
no_date ts = codes ""

build_block_embeds-IsBounded_example :
    All
      (IsBounded no_change no_date no_date)
      (build_block_embeds everything_on 100 7 settlements [])
build_block_embeds-IsBounded_example =
    build_block_embeds-IsBounded no_change no_date no_date everything_on 100 7 settlements []
