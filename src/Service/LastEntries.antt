-- ===== src/Service/LastEntries.antt =====
-- limitEntries: what its direction does when it also gets a number of entries.
use mathlib.Core.List.{reverse, reverse_aux, append_assoc, append-nil}
use pi_threads.Base.{
  ℕ, zero, suc, ◌+◌, ◌-◌, ◌≡◌, refl, sym, ap, ◌∙◌, Bool, true, false, List, [], ◌∷◌, ◌++◌, Option,
  none, some, if◌then◌else◌, ◌==◌, take, drop, length, filter, arith, length-append, drop_beyond,
  drop-append,
}
use pi_threads.Value.{Value}
use pi_threads.Service.Messages.{take_last, limit_entries, is_message_entry}

module _ {A : Type 0} where
  reverse_aux-append : (xs r ys : List A) → reverse_aux xs (r ++ ys) ≡ reverse_aux xs r ++ ys
  reverse_aux-append [] r ys = refl
  reverse_aux-append (x ∷ xs) r ys = reverse_aux-append xs (x ∷ r) ys

  reverse-cons : (x : A) (xs : List A) → reverse (x ∷ xs) ≡ reverse xs ++ x ∷ []
  reverse-cons x xs = reverse_aux-append xs [] (x ∷ [])

  reverse-append : (xs ys : List A) → reverse (xs ++ ys) ≡ reverse ys ++ reverse xs
  reverse-append [] ys = sym (append-nil (reverse ys))
  reverse-append (x ∷ xs) ys =
      reverse-cons x (xs ++ ys)
      ∙ ap (λ t. t ++ x ∷ []) (reverse-append xs ys)
      ∙ append_assoc (reverse ys) (reverse xs) (x ∷ [])
      ∙ ap (λ t. reverse ys ++ t) (sym (reverse-cons x xs))

  reverse-reverse : (xs : List A) → reverse (reverse xs) ≡ xs
  reverse-reverse [] = refl
  reverse-reverse (x ∷ xs) =
      ap reverse (reverse-cons x xs)
      ∙ reverse-append (reverse xs) (x ∷ [])
      ∙ ap (λ t. x ∷ t) (reverse-reverse xs)

  reverse-take : (n : ℕ) (ys : List A) → reverse (take n ys) ≡ take_last n (reverse ys)
  reverse-take zero ys = sym (drop_beyond (length (reverse ys) - 0) (reverse ys) (omega arith))
  reverse-take (suc n) [] = sym (drop_beyond (0 - suc n) [] (omega arith))
  reverse-take (suc n) (y ∷ ys) =
      let rest = reverse ys in
      let longer = length-append rest (y ∷ []) in
      reverse-cons y (take n ys)
      ∙ ap (λ t. t ++ y ∷ []) (reverse-take n ys)
      ∙ sym (drop-append (length rest - n) rest (y ∷ []) (omega arith))
      ∙ ap (λ k. drop k (rest ++ y ∷ [])) (shorter rest longer)
      ∙ ap (take_last (suc n)) (sym (reverse-cons y ys))
    where
      shorter :
          (rest : List A)
          → length (rest ++ y ∷ []) ≡ length rest + length (y ∷ [])
          → length rest - n ≡ length (rest ++ y ∷ []) - suc n
      shorter rest longer = omega arith

-- With `last` given, `asc` does not matter: the entries are always the last messages in the order of
-- the session file.
pub limit_entries-asc :
    (entries : List Value) (last : ℕ) (asc : Option Bool)
    → limit_entries (some entries) (some last) asc
      ≡ some (if last == 0 then [] else take_last last (filter is_message_entry entries))
unfolding limit_entries
limit_entries-asc entries last (some false) =
    ap (λ t. some (if last == 0 then [] else t))
      (reverse-take last (reverse (filter is_message_entry entries))
        ∙ ap (take_last last) (reverse-reverse (filter is_message_entry entries)))
limit_entries-asc entries last (some true) = refl
limit_entries-asc entries last none = refl
