-- ===== src/Logger/Format.antt =====
-- `formatMessage` against a substitution in one pass over the format.
use hft_sys.Common.{
  ℕ, zero, suc, ◌+◌, ◌^◌, ◌≤◌, ◌<◌, ◌≡◌, refl, sym, ap, ap₂, ◌⊎◌, subst, ◌∙◌, inl, inr, List, [],
  ◌∷◌, ◌++◌, append_assoc, length, length-append, take, drop, arith, true, false, ◌&&◌, ◌==◌,
  lt→ltb, le→ltb, Bool-cases, if◌then◌else◌, add_size, ok,
}
use hft_sys.Text.{Text}
use hft_sys.Logger.{Any, any_to_string, is_placeholder, skip, format_loop, format_message}

-- Each `{}` of a format replaced by the next argument, as long as there is one; the text of an argument is not
-- looked at again.
unfoldable pub substitute : Text → List Any → Text
substitute [] args = []
substitute t [] = t
substitute (c ∷ []) (arg ∷ args) = c ∷ []
substitute (c ∷ d ∷ t) (arg ∷ args) =
    let replaced = substitute t args in
    let kept = substitute (d ∷ t) (arg ∷ args) in
    if (c == b'{') && (d == b'}') then any_to_string arg ++ replaced else c ∷ kept

substitute-no_args : (t : Text) → substitute t [] ≡ t
unfolding substitute
substitute-no_args [] = refl
substitute-no_args (c ∷ t) = refl

-- The characters of the arguments.
abbrev pub args_length : List Any → ℕ
args_length [] = 0
args_length (arg ∷ args) = length (any_to_string arg) + args_length args

-- The end of the text written so far: the loop stands right behind it.
at_end : (done t : Text) → drop (length done) (done ++ t) ≡ t
at_end [] t = refl
at_end (c ∷ done) t = at_end done t

kept-done : (done t : Text) → take (length done) (done ++ t) ≡ done
kept-done [] t = refl
kept-done (c ∷ done) t = ap (λ r. c ∷ r) (kept-done done t)

behind :
    (n : ℕ) (done : Text) (c d : ℕ) (t : Text)
    → n ≡ length done + 2
    → drop n (done ++ c ∷ d ∷ t) ≡ t
behind (suc (suc zero)) [] c d t e = refl
behind (suc n) (e' ∷ done) c d t e = behind n done c d t (omega arith)
behind _ [] c d t e = absurd (omega arith)
behind zero (e' ∷ done) c d t e = absurd (omega arith)

skip-add : (i n : ℕ) → i + n < 2 ^ 64 → skip i n ≡ i + n
skip-add i n h = omega arith

loop_ends :
    (fuel i : ℕ) (result : Text) (args : List Any)
    → length result ≤ i
    → format_loop (suc fuel) i result args ≡ ok result
unfolding format_loop
loop_ends fuel i result [] h = rw (le→ltb i (length result) h) refl
loop_ends fuel i result (arg ∷ args) h = rw (le→ltb i (length result) h) refl

loop_keeps :
    (fuel i : ℕ) (result : Text) (args : List Any)
    → i < length result
    → (args ≡ []) ⊎ (is_placeholder (drop i result) ≡ false)
    → format_loop (suc fuel) i result args ≡ format_loop fuel (add_size i 1) result args
unfolding format_loop
loop_keeps fuel i result [] h k = rw (lt→ltb i (length result) h) refl
loop_keeps fuel i result (arg ∷ args) h (inl e) = absurd cc
loop_keeps fuel i result (arg ∷ args) h (inr e) = rw (lt→ltb i (length result) h, e) refl

loop_replaces :
    (fuel i : ℕ) (result : Text) (arg : Any) (args : List Any)
    → i < length result
    → is_placeholder (drop i result) ≡ true
    → format_loop (suc fuel) i result (arg ∷ args)
      ≡ format_loop fuel
          (skip i (length (any_to_string arg)))
          (take i result ++ any_to_string arg ++ drop (i + 2) result)
          args
unfolding format_loop
loop_replaces fuel i result arg args h e = rw (lt→ltb i (length result) h, e) refl

-- The loop behind `done`, with `t` left.
abbrev Substitutes : ℕ → Text → Text → List Any → Type 0
Substitutes fuel done t args =
    format_loop fuel (length done) (done ++ t) args ≡ ok (done ++ substitute t args)

Substitutes-keep :
    (fuel : ℕ) (done : Text) (c : ℕ) (t : Text) (args : List Any)
    → length done + suc (length t) < 2 ^ 64
    → (args ≡ []) ⊎ (is_placeholder (c ∷ t) ≡ false)
    → substitute (c ∷ t) args ≡ c ∷ substitute t args
    → Substitutes fuel (done ++ c ∷ []) t args
    → Substitutes (suc fuel) done (c ∷ t) args
Substitutes-keep fuel done c t args small h e rest =
    loop_keeps fuel (length done) (done ++ c ∷ t) args (omega (arith, length-append done (c ∷ t)))
      (subst (λ r. (args ≡ []) ⊎ (is_placeholder r ≡ false)) (sym (at_end done (c ∷ t))) h)
    ∙ (ap₂ (λ i r. format_loop fuel i r args) (omega (arith, length-append done (c ∷ [])))
          (sym (append_assoc done (c ∷ []) t))
        ∙ (rest
            ∙ ap ok (append_assoc done (c ∷ []) (substitute t args) ∙ ap (λ r. done ++ r) (sym e))))

Substitutes-replace :
    (fuel : ℕ) (done : Text) (c d : ℕ) (t : Text) (arg : Any) (args : List Any)
    → length done + length (any_to_string arg) + suc (suc (length t)) < 2 ^ 64
    → is_placeholder (c ∷ d ∷ t) ≡ true
    → Substitutes fuel (done ++ any_to_string arg) t args
    → Substitutes (suc fuel) done (c ∷ d ∷ t) (arg ∷ args)
unfolding substitute
Substitutes-replace fuel done c d t arg args small e rest =
    let result = done ++ c ∷ d ∷ t in
    let s = any_to_string arg in
    loop_replaces fuel (length done) result arg args (omega (arith, length-append done (c ∷ d ∷ t)))
      (ap is_placeholder (at_end done (c ∷ d ∷ t)) ∙ e)
    ∙ (ap₂ (λ i r. format_loop fuel i r args)
          (skip-add (length done) (length s) (omega arith) ∙ sym (length-append done s))
          (ap₂ (λ before after. before ++ s ++ after) (kept-done done (c ∷ d ∷ t))
            (behind (length done + 2) done c d t refl))
        ∙ (rest
            ∙ ap ok (append_assoc done s (substitute t args) ∙ ap (λ r. done ++ r) (rw (e) refl))))

format_loop-substitute :
    (fuel : ℕ) (done t : Text) (args : List Any)
    → length t < fuel
    → length done + length t + args_length args < 2 ^ 64
    → Substitutes fuel done t args
unfolding substitute
format_loop-substitute zero done t args enough small = absurd (omega arith)
format_loop-substitute (suc fuel) done [] args enough small =
    loop_ends fuel _ _ args (omega (arith, length-append done []))
format_loop-substitute (suc fuel) done (c ∷ t) [] enough small =
    Substitutes-keep fuel done c t [] (omega arith) (inl refl)
      (ap (λ r. c ∷ r) (sym (substitute-no_args t)))
      (format_loop-substitute fuel (done ++ c ∷ []) t [] (omega arith)
        (omega (arith, length-append done (c ∷ []))))
format_loop-substitute (suc fuel) done (c ∷ []) (arg ∷ args) enough small =
    Substitutes-keep fuel done c [] (arg ∷ args) (omega arith) (inr refl) refl (
      format_loop-substitute fuel (done ++ c ∷ []) [] (arg ∷ args) (omega arith)
        (omega (arith, length-append done (c ∷ []))))
format_loop-substitute (suc fuel) done (c ∷ d ∷ t) (arg ∷ args) enough small =
    elim (Bool-cases (is_placeholder (c ∷ d ∷ t))) [
      | inl e ↦ Substitutes-replace fuel done c d t arg args (omega arith) e (
          format_loop-substitute fuel (done ++ any_to_string arg) t args (omega arith)
            (omega (arith, length-append done (any_to_string arg))))
      | inr e ↦
          Substitutes-keep fuel done c (d ∷ t) (arg ∷ args) (omega arith) (inr e) (rw (e) refl) (
            format_loop-substitute fuel (done ++ c ∷ []) (d ∷ t) (arg ∷ args) (omega arith)
              (omega (arith, length-append done (c ∷ []))))
    ]

-- `formatMessage` replaces each `{}` of the format by the next argument, from left to right and in one pass,
-- and leaves the rest as it is: braces within an argument are not replaced, an argument too many is not written and a
-- placeholder too many stays. The text it goes through has to fit in a `size_t`.
pub format_message-substitute :
    (format : Text) (args : List Any)
    → length format + args_length args < 2 ^ 64
    → format_message format args ≡ ok (substitute format args)
unfolding format_message
format_message-substitute format args small =
    format_loop-substitute (suc (length format)) [] format args (omega arith) (omega arith)
