-- ===== src/Notify/Format/Pokt.antt =====
-- What a reader gets back from an amount in POKT.
use pocket_settlement_monito.Prelude.{
  ◌+◌, ◌*◌, ◌%◌, ◌<◌, ◌≡◌, ◌≢◌, refl, ap, ◌∙◌, inl, inr, Bool, true, false, [], ◌∷◌, ◌++◌, leb, ltb,
  length, select, arith, Bool-cases, if◌then◌else◌,
}
use pocket_settlement_monito.Prelude.Words.{Int64, two63, two64}
use pocket_settlement_monito.Subscriber.Types.{Bytes}
use pocket_settlement_monito.Processor.Coins.{is_digit, number, AllDigits}
use pocket_settlement_monito.Notify.Format.{
  decimal, padded, magnitude, print_padded, neg64, quo64, rem64, format_with_commas, pokt,
  unsigned_pokt, format_pokt,
}
use pocket_settlement_monito.Notify.Format.Groups.{IsGrouped, format_with_commas-IsGrouped}
use pocket_settlement_monito.Notify.Format.Digits.{
  decimal-number, decimal-AllDigits, padded-number, padded-AllDigits, padded-length,
  select-with_commas,
}

-- A sign, digits with a comma before each full group of three but the first group, a point, six digits, and the unit.
pub record Reads (upokt : Int64) (text : Bytes) : Type 0 where
  pub sign : Bytes
  pub whole : Bytes
  pub fraction : Bytes
  pub shape : text ≡ sign ++ (whole ++ (b'.' ∷ (fraction ++ pokt)))
  pub signed : sign ≡ (if ltb upokt two63 then [] else b'-' ∷ [])
  pub grouped : IsGrouped whole
  pub value : number (select is_digit whole) * 1000000 + number fraction ≡ magnitude upokt
  pub places : length fraction ≡ 6
  pub digits : AllDigits fraction

select-AllDigits : (s : Bytes) → AllDigits s → select is_digit s ≡ s
select-AllDigits [] h = refl
select-AllDigits (c ∷ s) h = rw h.0 (ap (λ l. c ∷ l) (select-AllDigits s h.1))

-- A number that is not negative is printed as its digits, with commas.
pub format_with_commas-number :
    (n : Int64) → n < two63 → number (select is_digit (format_with_commas n)) ≡ n
unfolding format_with_commas
format_with_commas-number n small =
    let positive : ltb n two63 ≡ true = ground arith in
    rw positive (elim (Bool-cases (leb (length (decimal n)) 3)) [
      | inl short ↦
          rw (short, select-AllDigits (decimal n) (decimal-AllDigits n))
            (decimal-number n (omega arith))
      | inr long ↦
          rw (long, select-with_commas true (decimal n) (decimal-AllDigits n))
            (decimal-number n (omega arith))
    ])

module _ (n : Int64) (small : n < two63) where
  positive : ltb n two63 ≡ true
  positive = ground arith

  whole_small : quo64 n 1000000 < two63
  whole_small = rw positive (omega arith)

  fraction_lem : print_padded (rem64 n 1000000) ≡ padded 6 (decimal (n % 1000000))
  fraction_lem =
      let part : ltb (n % 1000000) two63 ≡ true = ground arith in rw positive (rw part refl)

  value_lem :
      number (select is_digit (format_with_commas (quo64 n 1000000))) * 1000000
        + number (print_padded (rem64 n 1000000))
      ≡ n
  value_lem =
      rw
        (
          format_with_commas-number (quo64 n 1000000) whole_small,
          fraction_lem,
          padded-number 6 (n % 1000000) (omega arith),
          positive,
        )
        (omega arith)

  places_lem : length (print_padded (rem64 n 1000000)) ≡ 6
  places_lem = rw fraction_lem (padded-length (n % 1000000) (omega arith))

  digits_lem : AllDigits (print_padded (rem64 n 1000000))
  digits_lem = rw fraction_lem (padded-AllDigits 6 (n % 1000000))

-- By the test of the sign.
by_sign :
    (upokt : Int64)
    → upokt < two64
    → upokt ≢ two63
    → (positive : Bool) → ltb upokt two63 ≡ positive
    → Reads upokt (if positive then unsigned_pokt upokt else b'-' ∷ unsigned_pokt (neg64 upokt))
by_sign upokt bound proper true sign =
    let small : upokt < two63 = ground arith in
    record {
      sign = [];
      whole = format_with_commas (quo64 upokt 1000000);
      fraction = print_padded (rem64 upokt 1000000);
      shape = refl;
      signed = rw sign refl;
      grouped = format_with_commas-IsGrouped (quo64 upokt 1000000) (whole_small upokt small);
      value = value_lem upokt small ∙ rw sign refl;
      places = places_lem upokt small;
      digits = digits_lem upokt small;
    }
by_sign upokt bound proper false sign =
    let small : neg64 upokt < two63 = ground (arith, proper) in
    record {
      sign = b'-' ∷ [];
      whole = format_with_commas (quo64 (neg64 upokt) 1000000);
      fraction = print_padded (rem64 (neg64 upokt) 1000000);
      shape = refl;
      signed = rw sign refl;
      grouped =
          format_with_commas-IsGrouped (quo64 (neg64 upokt) 1000000)
            (whole_small (neg64 upokt) small);
      value = value_lem (neg64 upokt) small ∙ rw sign (ground arith);
      places = places_lem (neg64 upokt) small;
      digits = digits_lem (neg64 upokt) small;
    }

-- For every int64 but the least one, formatPOKT prints a minus sign exactly if the amount is negative, then
-- one to three digits and after them groups of a comma and three digits, a point, exactly six digits and " POKT"; and the digits before the point, without the
-- commas, are the amount's millions and those after it the rest.
pub format_pokt-Reads :
    (upokt : Int64) → upokt < two64 → upokt ≢ two63 → Reads upokt (format_pokt upokt)
unfolding format_pokt
format_pokt-Reads upokt bound proper = by_sign upokt bound proper (ltb upokt two63) refl
