-- ===== src/Service/Paging.antt =====
-- The pages that a client follows by their cursors are the whole list.
use pi_threads.Base.{
  ℕ, zero, suc, ◌+◌, ◌≤◌, ◌<◌, ◌≡◌, refl, sym, ap, ◌∙◌, String, Bool, true, false, List, [], ◌++◌,
  Option, none, some, arith, if◌then◌else◌, ltb, take, drop, length, take-drop, drop-drop,
  drop_beyond,
}
use pi_threads.Service.Threads.{Page, Texts, limit_of, offset_of, page_at, page_threads}

-- A client that asks for the next page as long as it gets a cursor, at most `fuel` times.
module _ {ℓ} {A : Type ℓ} where
  abbrev pub follow : (Option String → Page A) → ℕ → Option String → List A
  follow page zero cursor = []
  follow page (suc fuel) cursor =
      (page cursor).threads
      ++ elim (page cursor).cursor [ none ↦ [] | some next ↦ follow page fuel (some next) ]

  module _ (texts : Texts) (threads : List A) (limit : Option ℕ) where
    -- From an offset, with a page for each of the threads that are left.
    follow_from :
        (fuel offset : ℕ) (cursor : Option String)
        → 1 ≤ limit_of texts limit
        → ((n : ℕ) → n < length threads → offset_of texts (some (texts.text_of n)) ≡ some n)
        → offset_of texts cursor ≡ some offset
        → length threads < offset + fuel
        → follow (λ c. page_threads texts threads c limit) fuel cursor ≡ drop offset threads
    unfolding page_threads
    follow_from zero offset cursor pos names e enough =
        sym (drop_beyond offset threads (omega arith))
    follow_from (suc fuel) offset cursor pos names e enough =
        let limit' = limit_of texts limit in
        let turn : Option ℕ → List A = λ o.
          let page = page_at texts threads limit' o in
          page.threads ++ elim page.cursor [
            | none ↦ []
            | some next ↦ follow (λ c. page_threads texts threads c limit) fuel (some next)
          ] in
        ap turn e
        ∙ ap (λ rest. take limit' (drop offset threads) ++ rest)
            (rest
              (λ more.
                follow_from fuel (offset + limit') (some (texts.text_of (offset + limit'))) pos
                  names (names (offset + limit') more) (omega arith))
              (ltb (offset + limit') (length threads)) refl)
        ∙ take-drop limit' (drop offset threads)
      where
        rest :
            (offset + limit_of texts limit < length threads
              → follow
                  (λ c. page_threads texts threads c limit)
                  fuel
                  (some (texts.text_of (offset + limit_of texts limit)))
                ≡ drop (offset + limit_of texts limit) threads)
            → (more : Bool) → ltb (offset + limit_of texts limit) (length threads) ≡ more
            → elim (if more then some (texts.text_of (offset + limit_of texts limit)) else none) [
              | none ↦ []
              | some next ↦ follow (λ c. page_threads texts threads c limit) fuel (some next)
            ]
              ≡ drop (limit_of texts limit) (drop offset threads)
        rest later true test =
            later (ground arith) ∙ sym (drop-drop (limit_of texts limit) offset _ threads refl)
        rest later false test = sym (
            drop-drop (limit_of texts limit) offset _ threads refl
            ∙ drop_beyond (offset + limit_of texts limit) threads (ground arith))

    -- A client that starts with no cursor and follows the cursors to the end gets every thread
    -- exactly once, in order, if pages are not empty and the text of an offset is read back as that
    -- offset. It needs at most one more page than there are threads.
    pub page_threads-whole :
        1 ≤ limit_of texts limit
        → ((n : ℕ) → n < length threads → offset_of texts (some (texts.text_of n)) ≡ some n)
        → follow (λ c. page_threads texts threads c limit) (length threads + 1) none ≡ threads
    page_threads-whole pos names =
        follow_from (length threads + 1) 0 none pos names refl (omega arith)
