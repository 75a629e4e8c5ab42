-- ===== src/Json/Config/Ranges.antt =====
-- The ranges of the settings of the JSON codec.
use mathlib.Core.Path.{subst}
use lev.Base.{ℕ, List, [], ◌∷◌, ◌≤◌, ◌&&◌, leb, arith, refl, inl, inr, Bool-cases, ◌≡◌}
use lev.Base.Int.{pos, negsuc}
use lev.Json.Value.{JsonConfig, default_config}
use lev.Json.Config.{
  Setting, absent, other, boolean, integer, word, Answer, set, arg_error, int_max,
  json_integer_option, Called, apply, returned, Function, configure, configure_all,
  encode_sparse_array, encode_max_depth, decode_max_depth, encode_number_precision,
  encode_keep_buffer, encode_invalid_numbers, decode_invalid_numbers, bool_option, with_ratio,
  with_safe, invalid_numbers_option,
}

-- The depths are from 1 on, the precision is from 1 to 14, and each number is an `int`.
abbrev pub IsConfig : JsonConfig → Type 0
IsConfig cfg =
    (cfg.encode_sparse_ratio ≤ int_max)
    × (cfg.encode_sparse_safe ≤ int_max)
    × (1 ≤ cfg.encode_max_depth)
    × (cfg.encode_max_depth ≤ int_max)
    × (1 ≤ cfg.decode_max_depth)
    × (cfg.decode_max_depth ≤ int_max)
    × (1 ≤ cfg.encode_number_precision)
    × (cfg.encode_number_precision ≤ 14)

-- An option that is set lies in its range, if it did before.
abbrev InRange : ℕ → ℕ → Answer ℕ → Type 0
InRange min max (set v) = (min ≤ v) × (v ≤ max)
InRange min max (arg_error n) = Unit

integer_option-InRange :
    (i : ℕ) (a : Setting) (v min max : ℕ)
    → min ≤ v
    → v ≤ max
    → InRange min max (json_integer_option i a v min max)
unfolding json_integer_option
integer_option-InRange i absent v min max l u = (l, u)
integer_option-InRange i (integer (pos n)) v min max l u =
    elim (Bool-cases (leb min n && leb n max)) [ inl e ↦ rw e (ground arith) | inr e ↦ rw e tt ]
integer_option-InRange i (integer (negsuc n)) v min max l u = tt
integer_option-InRange i other v min max l u = tt
integer_option-InRange i (boolean b) v min max l u = tt
integer_option-InRange i (word s) v min max l u = tt

-- A step of a call keeps a property that each update has.
apply-keeps :
    {A : Type 0} (cfg : JsonConfig) (r : Answer A) (update : A → JsonConfig)
    (next : JsonConfig → Called)
    → IsConfig cfg
    → ((a : A) → r ≡ set a → IsConfig (update a))
    → ((c : JsonConfig) → IsConfig c → IsConfig (next c).0)
    → IsConfig (apply cfg r update next).0
apply-keeps cfg (set a) update next h u n = n (update a) (u a refl)
apply-keeps cfg (arg_error i) update next h u n = h

-- An integer option that is an update's argument.
ranged :
    (i : ℕ) (a : Setting) (v min max k : ℕ)
    → min ≤ v
    → v ≤ max
    → json_integer_option i a v min max ≡ set k
    → (min ≤ k) × (k ≤ max)
ranged i a v min max k l u e = subst (InRange min max) e (integer_option-InRange i a v min max l u)

configure-IsConfig : (f : Function) (cfg : JsonConfig) → IsConfig cfg → IsConfig (configure f cfg).0
unfolding configure
configure-IsConfig (encode_sparse_array a b c) cfg h =
    apply-keeps cfg (bool_option 1 a cfg.encode_sparse_convert)
      (λ v. record cfg { encode_sparse_convert = v }) (λ cfg₁. with_ratio cfg₁ b c) h (λ v e. h)
      λ cfg₁ h₁.
        apply-keeps cfg₁ (json_integer_option 2 b cfg₁.encode_sparse_ratio 0 int_max)
          (λ v. record cfg₁ { encode_sparse_ratio = v }) (λ cfg₂. with_safe cfg₂ c) h₁
          (λ v e.
            let r =
              ranged 2 b cfg₁.encode_sparse_ratio 0 int_max v (omega arith) (omega (arith, h₁)) e in
            omega (arith, h₁, r))
          λ cfg₂ h₂.
            apply-keeps cfg₂ (json_integer_option 3 c cfg₂.encode_sparse_safe 0 int_max)
              (λ v. record cfg₂ { encode_sparse_safe = v }) returned h₂
              (λ v e.
                let r =
                  ranged 3 c cfg₂.encode_sparse_safe 0 int_max v (omega arith) (omega (arith, h₂))
                    e in
                omega (arith, h₂, r))
              (λ cfg₃ h₃. h₃)
configure-IsConfig (encode_max_depth a) cfg h =
    apply-keeps cfg (json_integer_option 1 a cfg.encode_max_depth 1 int_max)
      (λ v. record cfg { encode_max_depth = v }) returned h
      (λ v e.
        let r =
          ranged 1 a cfg.encode_max_depth 1 int_max v (omega (arith, h)) (omega (arith, h)) e in
        omega (arith, h, r))
      (λ c k. k)
configure-IsConfig (decode_max_depth a) cfg h =
    apply-keeps cfg (json_integer_option 1 a cfg.decode_max_depth 1 int_max)
      (λ v. record cfg { decode_max_depth = v }) returned h
      (λ v e.
        let r =
          ranged 1 a cfg.decode_max_depth 1 int_max v (omega (arith, h)) (omega (arith, h)) e in
        omega (arith, h, r))
      (λ c k. k)
configure-IsConfig (encode_number_precision a) cfg h =
    apply-keeps cfg (json_integer_option 1 a cfg.encode_number_precision 1 14)
      (λ v. record cfg { encode_number_precision = v }) returned h
      (λ v e.
        let r =
          ranged 1 a cfg.encode_number_precision 1 14 v (omega (arith, h)) (omega (arith, h)) e in
        omega (arith, h, r))
      (λ c k. k)
configure-IsConfig (encode_keep_buffer a) cfg h =
    apply-keeps cfg (bool_option 1 a cfg.encode_keep_buffer)
      (λ v. record cfg { encode_keep_buffer = v }) returned h (λ v e. h) (λ c k. k)
configure-IsConfig (encode_invalid_numbers a) cfg h =
    apply-keeps cfg (invalid_numbers_option a cfg.encode_invalid_numbers)
      (λ v. record cfg { encode_invalid_numbers = v }) returned h (λ v e. h) (λ c k. k)
configure-IsConfig (decode_invalid_numbers a) cfg h =
    apply-keeps cfg (bool_option 1 a cfg.decode_invalid_numbers)
      (λ v. record cfg { decode_invalid_numbers = v }) returned h (λ v e. h) (λ c k. k)

-- The settings of `json_create_config`, after any calls of the functions that change them and whether
-- or not these raise errors, are in their ranges.
pub configure_all-IsConfig : (fs : List Function) → IsConfig (configure_all fs default_config)
unfolding configure_all
configure_all-IsConfig fs = go fs default_config (omega arith)
  where
    go : (fs : List Function) (cfg : JsonConfig) → IsConfig cfg → IsConfig (configure_all fs cfg)
    go [] cfg h = h
    go (f ∷ fs) cfg h = go fs (configure f cfg).0 (configure-IsConfig f cfg h)
