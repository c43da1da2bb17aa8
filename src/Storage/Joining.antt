-- ===== src/Storage/Joining.antt =====
-- `JoinRelative`: the parts of a storage path, normalized one by one.
use honeygen.Prelude.{
  ◌≡◌, refl, sym, ap, ◌∙◌, ◌≢◌, List, [], ◌∷◌, ◌++◌, append-nil, append_assoc, arith, All,
  All-append, ok, >>=-eq-ok, ok-injective,
}
use honeygen.Text.{Text, split, join}
use honeygen.Text.Equality.{text_eq_iff, text_eq_of_ne}
use honeygen.Text.Parts.{split-join, split-ne-nil}
use honeygen.Path.{slash, path_join, nonempty}
use honeygen.Path.Clean.{IsName}
use honeygen.Path.Below.{one_segments, clean-join}
use honeygen.Storage.{normalize_relative_path, join_loop, join_relative}
use honeygen.Storage.Sandbox.{normalize_relative_path-IsSafe}

-- the segments of normalized parts, in order
abbrev pub segments_of : List Text → List Text
segments_of [] = []
segments_of (n ∷ ns) = split slash n ++ segments_of ns

-- `ns` are the normalized parts, one for each part
abbrev pub Normalized : List Text → List Text → Type 0
Normalized [] [] = Unit
Normalized [] (n ∷ ns) = ⊥
Normalized (p ∷ ps) [] = ⊥
Normalized (p ∷ ps) (n ∷ ns) = (normalize_relative_path p ≡ ok n) × Normalized ps ns

join_loop-Normalized :
    (parts : List Text) (acc segs : List Text)
    → join_loop acc parts ≡ ok segs
    → (ns : List Text) × Normalized parts ns × (segs ≡ acc ++ segments_of ns)
unfolding join_loop
join_loop-Normalized [] acc segs h = ([], tt, ok-injective (sym h) ∙ sym (append-nil acc))
join_loop-Normalized (p ∷ parts) acc segs h =
    let (n, e, k) = >>=-eq-ok (normalize_relative_path p) _ h in
    let (ns, norm, eq) = join_loop-Normalized parts (acc ++ split slash n) segs k in
    (n ∷ ns, (e, norm), eq ∙ append_assoc acc (split slash n) (segments_of ns))

segments_of-names : (parts ns : List Text) → Normalized parts ns → All IsName (segments_of ns)
segments_of-names [] [] h = tt
segments_of-names [] (n ∷ ns) h = absurd h
segments_of-names (p ∷ ps) [] h = absurd h
segments_of-names (p ∷ ps) (n ∷ ns) (e, h) =
    All-append IsName (split slash n) (segments_of ns) (normalize_relative_path-IsSafe p n e).names
      (segments_of-names ps ns h)

nonempty-names : (ss : List Text) → All IsName ss → nonempty ss ≡ ss
unfolding nonempty
nonempty-names [] h = refl
nonempty-names (s ∷ ss) (n, h) = rw (text_eq_of_ne s [] n.not_empty, nonempty-names ss h)

path_join-names : (ss : List Text) → ss ≢ [] → All IsName ss → path_join ss ≡ join slash ss
unfolding path_join
path_join-names ss ne h =
    rw (nonempty-names ss h, clean-join ss ne h) (ground (arith, text_eq_iff (join slash ss) []))

segments_of-ne : (n : Text) (ns : List Text) → segments_of (n ∷ ns) ≢ []
segments_of-ne n ns e = ground (arith, split-ne-nil slash n)

-- Where `JoinRelative` succeeds, each of its parts passed `normalizeRelativePath`; the
-- segments of the result are those of the normalized parts in order, and all are names.
pub join_relative-segments :
    (parts : List Text) (p : Text)
    → join_relative parts ≡ ok p
    → (ns : List Text) × Normalized parts ns
      × (split slash p ≡ segments_of ns)
      × All IsName (split slash p)
unfolding join_relative
join_relative-segments [] p h = cc
join_relative-segments (part ∷ parts) p h =
    let (segs, e, k) = >>=-eq-ok (join_loop [] (part ∷ parts)) _ h in
    let (ns, norm, eq) = join_loop-Normalized (part ∷ parts) [] segs e in
    finish ns segs norm eq (ok-injective k)
  where
    finish :
        (ns segs : List Text)
        → Normalized (part ∷ parts) ns
        → segs ≡ segments_of ns
        → path_join segs ≡ p
        → (ns : List Text) × Normalized (part ∷ parts) ns
          × (split slash p ≡ segments_of ns)
          × All IsName (split slash p)
    finish [] segs norm eq k = absurd norm
    finish (n ∷ ns) segs norm eq k =
        let names = segments_of-names (part ∷ parts) (n ∷ ns) norm in
        let ne = segments_of-ne n ns in
        let same : split slash p ≡ segments_of (n ∷ ns) =
          ap (split slash)
            (sym k ∙ ap path_join eq ∙ path_join-names (segments_of (n ∷ ns)) ne names)
          ∙ split-join slash (segments_of (n ∷ ns)) ne
              (one_segments (segments_of (n ∷ ns)) names) in
        (n ∷ ns, norm, same, rw same names)

join_loop_ok :
    (parts ns acc : List Text)
    → Normalized parts ns
    → join_loop acc parts ≡ ok (acc ++ segments_of ns)
unfolding join_loop
join_loop_ok [] [] acc h = rw append-nil
join_loop_ok [] (n ∷ ns) acc h = absurd h
join_loop_ok (p ∷ ps) [] acc h = absurd h
join_loop_ok (p ∷ ps) (n ∷ ns) acc (e, h) = rw e (
    join_loop_ok ps ns (acc ++ split slash n) h
    ∙ ap ok (append_assoc acc (split slash n) (segments_of ns)))

-- Parts that each normalize are joined: the result is the normalized segments behind one another.
pub join_relative_ok :
    (part : Text) (parts : List Text) (n : Text) (ns : List Text)
    → Normalized (part ∷ parts) (n ∷ ns)
    → join_relative (part ∷ parts) ≡ ok (join slash (segments_of (n ∷ ns)))
unfolding join_relative
join_relative_ok part parts n ns h =
    rw (join_loop_ok (part ∷ parts) (n ∷ ns) [] h) (
      ap ok (path_join-names _ (segments_of-ne n ns) (segments_of-names (part ∷ parts) (n ∷ ns) h)))
