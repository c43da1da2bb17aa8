-- ===== src/Generation/Answers/Tidy.antt =====
-- generation/service.go, normalizePlainTextContent: the lines that are kept.
use honeygen.Prelude.{
  ◌≡◌, refl, ◌∙◌, inl, inr, Bool, true, false, not, ◌&&◌, List, [], ◌∷◌, if◌then◌else◌, Bool-cases,
  All, arith, map,
}
use honeygen.Text.{Text, text_eq, trim_space, trim, trim_left, split}
use honeygen.Text.Trimming.{trim_space-trim_space}
use honeygen.Generation.Answers.{
  newline, clean_lines, drop_last_blank, kept_lines, to_lf, without_html,
}

abbrev pub starts_blank : List Text → Bool
starts_blank [] = false
starts_blank (l ∷ ls) = text_eq l []

abbrev pub ends_blank : List Text → Bool
ends_blank [] = false
ends_blank (l ∷ []) = text_eq l []
ends_blank (l ∷ m ∷ ls) = ends_blank (m ∷ ls)

-- no two blank lines stand behind one another
abbrev pub IsSpaced : List Text → Type 0
IsSpaced [] = Unit
IsSpaced (l ∷ ls) = ((text_eq l [] && starts_blank ls) ≡ false) × IsSpaced ls

clean_lines-trimmed :
    (s b : Bool) (ls : List Text) → All (λ l. trim_space l ≡ l) (clean_lines s b ls)
unfolding clean_lines
clean_lines-trimmed s b [] = tt
clean_lines-trimmed s b (l ∷ ls) = elim (Bool-cases (text_eq (trim_space l) [])) [
  | inl blank ↦ elim (Bool-cases (not b && s)) [
    | inl y ↦ rw (blank, y) (nothing, clean_lines-trimmed s true ls)
    | inr n ↦ rw (blank, n) (clean_lines-trimmed s true ls)
  ]
  | inr text ↦ rw text (trim_space-trim_space l, clean_lines-trimmed true false ls)
]
  where
    nothing : trim_space [] ≡ []
    nothing = unfold trim_space trim trim_left in refl

clean_lines-IsSpaced :
    (s b : Bool) (ls : List Text)
    → IsSpaced (clean_lines s b ls)
      × ((not b && s) ≡ false → starts_blank (clean_lines s b ls) ≡ false)
unfolding clean_lines
clean_lines-IsSpaced s b [] = (tt, λ h. refl)
clean_lines-IsSpaced s b (l ∷ ls) = elim (Bool-cases (text_eq (trim_space l) [])) [
  | inl blank ↦
      let (spaced, first) = clean_lines-IsSpaced s true ls in
      elim (Bool-cases (not b && s)) [
        | inl y ↦ rw (blank, y) ((ground (arith, first), spaced), λ h. cc)
        | inr n ↦ rw (blank, n) (spaced, λ h. first refl)
      ]
  | inr text ↦
      let (spaced, first) = clean_lines-IsSpaced true false ls in
      rw text ((rw text refl, spaced), λ h. text)
]

drop_last_blank-All : (P : Text → Type 0) (ls : List Text) → All P ls → All P (drop_last_blank ls)
unfolding drop_last_blank
drop_last_blank-All P [] h = tt
drop_last_blank-All P (l ∷ []) (p, h) = elim (Bool-cases (text_eq l [])) [
  | inl y ↦ rw y tt
  | inr n ↦ rw n (p, tt)
]
drop_last_blank-All P (l ∷ m ∷ ls) (p, h) = (p, drop_last_blank-All P (m ∷ ls) h)

starts_blank-drop :
    (ls : List Text) → starts_blank ls ≡ false → starts_blank (drop_last_blank ls) ≡ false
unfolding drop_last_blank
starts_blank-drop [] h = refl
starts_blank-drop (l ∷ []) h = rw h h
starts_blank-drop (l ∷ m ∷ ls) h = h

-- behind a line, what is dropped was blank
drop_last_blank-spaced :
    (l m : Text) (ls : List Text)
    → (text_eq l [] && starts_blank (m ∷ ls)) ≡ false
    → (text_eq l [] && starts_blank (drop_last_blank (m ∷ ls))) ≡ false
drop_last_blank-spaced l m ls h = ground (arith, starts_blank-drop (m ∷ ls))

drop_last_blank-IsSpaced : (ls : List Text) → IsSpaced ls → IsSpaced (drop_last_blank ls)
unfolding drop_last_blank
drop_last_blank-IsSpaced [] h = tt
drop_last_blank-IsSpaced (l ∷ []) (p, h) = elim (Bool-cases (text_eq l [])) [
  | inl y ↦ rw y tt
  | inr n ↦ rw n (rw n refl, tt)
]
drop_last_blank-IsSpaced (l ∷ m ∷ ls) (p, h) =
    (drop_last_blank-spaced l m ls p, drop_last_blank-IsSpaced (m ∷ ls) h)

ends_blank-drop : (ls : List Text) → IsSpaced ls → ends_blank (drop_last_blank ls) ≡ false
unfolding drop_last_blank
ends_blank-drop [] h = refl
ends_blank-drop (l ∷ []) h = elim (Bool-cases (text_eq l [])) [ inl y ↦ rw y refl | inr n ↦ rw n n ]
ends_blank-drop (l ∷ m ∷ []) (p, h) = elim (Bool-cases (text_eq m [])) [
  | inl y ↦ rw y (ground arith)
  | inr n ↦ rw n n
]
ends_blank-drop (l ∷ m ∷ n ∷ ls) (p, h) = ends_blank-drop (m ∷ n ∷ ls) h

-- the lines that are not blank
abbrev pub texts_of : List Text → List Text
texts_of [] = []
texts_of (l ∷ ls) = let rest = texts_of ls in if text_eq l [] then rest else l ∷ rest

texts_of-drop : (ls : List Text) → texts_of (drop_last_blank ls) ≡ texts_of ls
unfolding drop_last_blank
texts_of-drop [] = refl
texts_of-drop (l ∷ []) = ground arith
texts_of-drop (l ∷ m ∷ ls) = ground (arith, texts_of-drop (m ∷ ls))

texts_of-blank : (ls : List Text) → texts_of ([] ∷ ls) ≡ texts_of ls
unfolding text_eq
texts_of-blank ls = refl

texts_of-clean_lines :
    (s b : Bool) (ls : List Text) → texts_of (clean_lines s b ls) ≡ texts_of (map trim_space ls)
unfolding clean_lines
texts_of-clean_lines s b [] = refl
texts_of-clean_lines s b (l ∷ ls) = elim (Bool-cases (text_eq (trim_space l) [])) [
  | inl blank ↦ elim (Bool-cases (not b && s)) [
    | inl y ↦
        rw (blank, y) (texts_of-blank (clean_lines s true ls) ∙ texts_of-clean_lines s true ls)
    | inr n ↦ rw (blank, n) (texts_of-clean_lines s true ls)
  ]
  | inr text ↦ rw (text, texts_of-clean_lines true false ls) (rw text refl)
]

-- what `normalizePlainTextContent` makes of the lines of a text
pub record IsTidy (given kept : List Text) : Type 0 where
  pub trimmed : All (λ l. trim_space l ≡ l) kept
  pub spaced : IsSpaced kept
  pub front : starts_blank kept ≡ false
  pub back : ends_blank kept ≡ false
  pub same_text : texts_of kept ≡ texts_of (map trim_space given)

-- The lines that `normalizePlainTextContent` joins are trimmed; none is blank at the front or at the
-- back, and no two blank lines follow one another; without the blank lines they are the trimmed
-- lines of the text, from which HTML was taken, in their order.
pub kept_lines-IsTidy :
    (to_lower unescape : Text → Text) (content : Text)
    → IsTidy
        (split newline (to_lf (without_html to_lower unescape (trim_space content))))
        (kept_lines to_lower unescape content)
unfolding kept_lines
kept_lines-IsTidy to_lower unescape content =
    let given = split newline (to_lf (without_html to_lower unescape (trim_space content))) in
    let lines = clean_lines false false given in
    let (spaced, first) = clean_lines-IsSpaced false false given in
    record {
      trimmed =
          drop_last_blank-All (λ l. trim_space l ≡ l) lines (clean_lines-trimmed false false given);
      spaced = drop_last_blank-IsSpaced lines spaced;
      front = starts_blank-drop lines (first refl);
      back = ends_blank-drop lines spaced;
      same_text = texts_of-drop lines ∙ texts_of-clean_lines false false given;
    }
