-- ===== src/Value/Texts.antt =====
-- Values that are texts: the tests of Value against equations.
use pi_threads.Base.{
  String, Bool, true, false, ◌||◌, none, some, ◌≡◌, refl, ◌∙◌, ap, arith, ◌⊎◌, inl, inr, eq_iff,
}
use pi_threads.Value.{Value, str, is_text, text_of}

pub is_text-str : (v : Value) (s : String) → is_text v s ≡ true → v ≡ str s
is_text-str (str t) s h = ap str ((eq_iff t s).0 h)
is_text-str v s h = absurd (ground arith)

pub str-is_text : (v : Value) (s : String) → v ≡ str s → is_text v s ≡ true
str-is_text v s e = ap (λ x. is_text x s) e ∙ (eq_iff s s).1 refl

pub or_cases : (a b : Bool) → (a || b) ≡ true → (a ≡ true) ⊎ (b ≡ true)
or_cases true b h = inl refl
or_cases false b h = inr h

pub text_of-str : (v : Value) (s : String) → text_of v ≡ some s → v ≡ str s
text_of-str (str t) s h = ground arith
text_of-str v s h = absurd (ground arith)

pub no_text : (v : Value) (s : String) → text_of v ≡ none → v ≡ str s → ⊥
no_text v s h e = let k = ap text_of e in ground arith
