-- ===== src/Admin/Migration/Filling.antt =====
-- What filling does to bytes whose parts are known.
use coinflip_program.Base.{
  ℕ, ◌+◌, ◌^◌, ◌<◌, ◌≡◌, refl, sym, ap, ◌∙◌, arith, true, false, Bytes, [], ◌∷◌, ◌++◌, ◌==◌,
  if◌then◌else◌, length, take, drop, slice, replicate, bytes_eq, bytes_eq_refl, bytes_eq→eq,
  Bool-cases, inl, inr, slice_middle, take-append, drop-append, length-append, to_le_bytes,
  to_le_bytes-zero, to_be_bytes-zero, length-to_le_bytes, length-to_be_bytes, ==_iff, ◌≢◌, zero,
  suc, to_be_bytes,
}
use mathlib.Core.List.{append_assoc, append-nil}
use coinflip_program.State.{key_bytes, default_sol_min_amount, default_sol_max_amount}
use coinflip_program.Vrf.{orao_vrf_id}
use coinflip_program.Admin.Migration.{fill, fill_config}

-- The field afterwards.
abbrev pub pick : (default field : Bytes) → Bytes
pick default field = if bytes_eq field (replicate (length default) 0) then default else field

apart_bools : true ≢ false
apart_bools = λ e. ground arith

drop_past :
    (before middle after : Bytes)
    → drop (length before + length middle) (before ++ (middle ++ after)) ≡ after
drop_past before middle after =
    let e = drop-append (before ++ middle) after in rw (← append_assoc, ← length-append) e

-- The test, on the slice where the field stands.
module _ (off : ℕ) (default before field after : Bytes) (a : off ≡ length before)
    (w : length field ≡ length default) where
  field_found : slice (before ++ (field ++ after)) off (off + length default) ≡ field
  field_found = slice_middle before field after off (off + length default) a (omega arith)

  replaced :
      take off (before ++ (field ++ after))
        ++ (default ++ drop (off + length default) (before ++ (field ++ after)))
      ≡ before ++ (default ++ after)
  replaced = rw (a, ← w) (rw (take-append, drop_past) refl)

  fill-append :
      fill off default (before ++ (field ++ after)) ≡ before ++ (pick default field ++ after)
  unfolding fill
  fill-append = elim (Bool-cases (bytes_eq field (replicate (length default) 0))) [
    | inl zero_field ↦ rw (field_found, zero_field) replaced
    | inr set ↦ rw (field_found, set) refl
  ]

length-pick :
    (default field : Bytes)
    → length field ≡ length default
    → length (pick default field) ≡ length default
length-pick default field w = elim (Bool-cases (bytes_eq field (replicate (length default) 0))) [
  | inl zero_field ↦ rw zero_field refl
  | inr set ↦ rw set w
]

-- Three fields in a row at the end, with defaults of the same lengths.
module _ (front first second third d1 d2 d3 : Bytes) (a : length front ≡ 140)
    (b : length first ≡ length d1) (c : length second ≡ length d2) (d : length third ≡ length d3)
    (w1 : length d1 ≡ 8) (w2 : length d2 ≡ 32) where
  abbrev one : Bytes
  one = pick d1 first

  abbrev two : Bytes
  two = pick d2 second

  fill_first :
      fill 140 d1 (front ++ (first ++ (second ++ third))) ≡ (front ++ one) ++ (second ++ third)
  fill_first =
      fill-append 140 d1 front first (second ++ third) (sym a) b ∙ sym (append_assoc front one _)

  fill_second :
      fill 148 d2 ((front ++ one) ++ (second ++ third)) ≡ ((front ++ one) ++ two) ++ (third ++ [])
  fill_second =
      fill-append 148 d2 (front ++ one) second third
        (omega (arith, length-append front one, length-pick d1 first b)) c
      ∙ sym (append_assoc (front ++ one) two third)
      ∙ ap (λ t. ((front ++ one) ++ two) ++ t) (sym (append-nil third))

  fill_third :
      fill 180 d3 (((front ++ one) ++ two) ++ (third ++ []))
      ≡ front ++ (one ++ (two ++ pick d3 third))
  fill_third =
      fill-append 180 d3 ((front ++ one) ++ two) third []
        (omega (
          arith,
          length-append (front ++ one) two,
          length-append front one,
          length-pick d1 first b,
          length-pick d2 second c,
        ))
        d
      ∙ ap (λ t. ((front ++ one) ++ two) ++ t) (append-nil (pick d3 third))
      ∙ append_assoc (front ++ one) two (pick d3 third)
      ∙ append_assoc front one (two ++ pick d3 third)

  fill_three :
      fill 180 d3 (fill 148 d2 (fill 140 d1 (front ++ (first ++ (second ++ third)))))
      ≡ front ++ (one ++ (two ++ pick d3 third))
  fill_three = rw (fill_first, fill_second) fill_third

-- The three fields of a configuration behind 140 other bytes.
pub fill_config-append :
    (front sol vrf max : Bytes)
    → length front ≡ 140
    → length sol ≡ 8
    → length vrf ≡ 32
    → length max ≡ 8
    → fill_config (front ++ (sol ++ (vrf ++ max)))
      ≡ front
        ++ (pick (to_le_bytes 8 default_sol_min_amount) sol
            ++ (pick (key_bytes orao_vrf_id) vrf
                ++ pick (to_le_bytes 8 default_sol_max_amount) max))
unfolding fill_config
fill_config-append front sol vrf max a b c d =
    fill_three front sol vrf max (to_le_bytes 8 default_sol_min_amount) (key_bytes orao_vrf_id)
      (to_le_bytes 8 default_sol_max_amount) a (b ∙ sym (length-to_le_bytes 8 _))
      (c ∙ sym (length-to_be_bytes 32 _)) (d ∙ sym (length-to_le_bytes 8 _))
      (length-to_le_bytes 8 _) (length-to_be_bytes 32 _)

-- Of a number, the field afterwards is the default exactly if the number is 0.
abbrev pub or_default : (default n : ℕ) → ℕ
or_default default n = if n == 0 then default else n

module _ (encode : ℕ → Bytes) (w : ℕ) (wide : (n : ℕ) → length (encode n) ≡ w)
    (none_set : encode 0 ≡ replicate w 0) where
  pick_encoded :
      (default n : ℕ)
      → (encode n ≡ replicate w 0 → n ≡ 0)
      → pick (encode default) (encode n) ≡ encode (or_default default n)
  pick_encoded default n h = elim (Bool-cases (n == 0)) [
    | inl zero_n ↦
        let e : n ≡ 0 = (==_iff n 0).0 zero_n in
        rw (e, none_set, wide, bytes_eq_refl (replicate w 0)) refl
    | inr set ↦
        rw (set, wide)
          (elim (Bool-cases (bytes_eq (encode n) (replicate w 0))) [
            | inl same ↦
                let e : n ≡ 0 = h (bytes_eq→eq (encode n) (replicate w 0) same) in
                absurd (apart_bools (sym ((==_iff n 0).1 e) ∙ set))
            | inr other ↦ rw other refl
          ])
  ]

zero_le : (w : ℕ) → to_le_bytes w 0 ≡ replicate w 0
unfolding to_le_bytes
zero_le zero = refl
zero_le (suc w) = ap (λ t. 0 ∷ t) (zero_le w)

zero_key : key_bytes 0 ≡ replicate 32 0
unfolding to_be_bytes
zero_key = refl

pub pick_u64 :
    (default n : ℕ)
    → n < 2 ^ 64
    → pick (to_le_bytes 8 default) (to_le_bytes 8 n) ≡ to_le_bytes 8 (or_default default n)
pick_u64 default n h =
    pick_encoded (to_le_bytes 8) 8 (length-to_le_bytes 8) (zero_le 8) default n
      (to_le_bytes-zero 8 n (omega arith))

pub pick_key :
    (default n : ℕ)
    → n < 2 ^ 256
    → pick (key_bytes default) (key_bytes n) ≡ key_bytes (or_default default n)
pick_key default n h =
    pick_encoded (to_be_bytes 32) 32 (length-to_be_bytes 32) zero_key default n
      (to_be_bytes-zero 32 n (omega arith))
