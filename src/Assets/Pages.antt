-- ===== src/Assets/Pages.antt =====
-- The pages of `listAllForTree` are the whole listing.
use honeygen.Prelude.{
  ℕ, zero, suc, ◌<◌, ◌≡◌, refl, sym, ap, ◌∙◌, inl, inr, false, List, [], ◌++◌, append_assoc, arith,
  ltb, ltb→lt, Bool-cases, length, take, drop, length-append, take-append-drop, take_short,
  length-take-drop, drop-length, ok,
}
use honeygen.Database.{Asset, Db, Context, fails}
use honeygen.Assets.{
  ListOptions, normalize_limit, wanted, wanted_rows, list, page_size, list_pages, list_all_for_tree,
}

-- the rows from an offset on: a page and what follows it
module _ (ctx : Context) (o : ListOptions) (db : Db) (up : fails ctx db ≡ false) where
  one_page :
      (offset : ℕ)
      → list ctx (record o { limit = page_size; offset = offset }) db
        ≡ ok (take page_size (drop offset (wanted_rows o db)))
  unfolding list normalize_limit wanted_rows wanted
  one_page offset = rw up

  pages_complete :
      (fuel : ℕ) (before rest : List Asset)
      → wanted_rows o db ≡ before ++ rest
      → length rest < fuel
      → list_pages fuel ctx o db (length before) before ≡ ok (before ++ rest)
  unfolding list_pages
  pages_complete zero before rest e h = absurd (omega arith)
  pages_complete (suc fuel) before rest e h =
      let page = take page_size rest in
      let left = drop page_size rest in
      let whole : before ++ rest ≡ (before ++ page) ++ left =
        (ap (λ r. before ++ r) (sym (take-append-drop page_size rest))
          ∙ sym (append_assoc before page left)) in
      rw (one_page (length before), list_pages)
        (rw (e, drop-length before rest)
          (elim (Bool-cases (ltb (length page) page_size)) [
            | inl short ↦
                rw (short, take_short page_size rest (ltb→lt (length page) page_size short)) refl
            | inr full ↦
                rw (full, ← length-append before page)
                  (pages_complete fuel (before ++ page) left (e ∙ whole)
                      (ground (arith, length-take-drop page_size rest))
                    ∙ ap ok (sym whole))
          ]))

-- On a working database, `listAllForTree` ends and returns every row that the options ask for, in the
-- order of the listing, however many pages there are.
pub list_all_for_tree_lem :
    (ctx : Context) (o : ListOptions) (db : Db)
    → fails ctx db ≡ false
    → list_all_for_tree ctx o db ≡ ok (wanted_rows o db)
unfolding list_all_for_tree
list_all_for_tree_lem ctx o db up =
    pages_complete ctx o db up (suc (length (wanted_rows o db))) [] (wanted_rows o db) refl
      (omega arith)
