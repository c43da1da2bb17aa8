-- ===== src/Assets/Grown.antt =====
-- assets/repository.go, Tree: which asset a file of the tree stands for.
use honeygen.Prelude.{
  ◌≡◌, refl, ap, ◌∙◌, inl, inr, false, Option, none, some, List, [], ◌∷◌, if◌then◌else◌, Bool-cases,
  ok,
}
use honeygen.Text.{Text}
use honeygen.Database.{Asset, Db, Context, fails}
use honeygen.Assets.{ListOptions, wanted_rows}
use honeygen.Assets.Pages.{list_all_for_tree_lem}
use honeygen.Assets.Tree.{
  TreeNodes, no_nodes, insert_tree_node, grow, grown, tree_segments, unsorted_tree,
}
use honeygen.Assets.Inserted.{
  file_at_segments, segments_eq, child, file_of, children_of, insert_tree_node_lem,
}

-- the last asset that is shown at the segments
unfoldable pub last_at : ListOptions → List Asset → List Text → Option Text
last_at o [] t = none
last_at o (a ∷ items) t =
    let rest = last_at o items t in
    elim rest [
      | some id ↦ some id
      | none ↦ if segments_eq (tree_segments o a) t then some a.id else none
    ]

abbrev or_file : Option Text → Option Text → Option Text
or_file none old = old
or_file (some id) old = some id

inserted :
    (id k : Text) (segments ks : List Text) (nodes : TreeNodes)
    → file_at_segments (k ∷ ks) (insert_tree_node id [] segments nodes)
      ≡ (if segments_eq segments (k ∷ ks) then some id else file_at_segments (k ∷ ks) nodes)
unfolding insert_tree_node segments_eq
inserted id k [] ks nodes = refl
inserted id k (name ∷ segments) ks nodes = insert_tree_node_lem id [] name segments (k ∷ ks) nodes

grow_lem :
    (o : ListOptions) (items : List Asset) (nodes : TreeNodes) (k : Text) (ks : List Text)
    → file_at_segments (k ∷ ks) (grow o items nodes)
      ≡ or_file (last_at o items (k ∷ ks)) (file_at_segments (k ∷ ks) nodes)
unfolding grow last_at
grow_lem o [] nodes k ks = refl
grow_lem o (a ∷ items) nodes k ks =
    grow_lem o items (insert_tree_node a.id [] (tree_segments o a) nodes) k ks
    ∙ (rw (inserted a.id k (tree_segments o a) ks nodes) (chosen (last_at o items (k ∷ ks))))
  where
    chosen :
        (rest : Option Text)
        → or_file rest (
            if segments_eq (tree_segments o a) (k ∷ ks)
            then some a.id
            else file_at_segments (k ∷ ks) nodes)
          ≡ or_file
              (elim rest [
                | some id ↦ some id
                | none ↦ if segments_eq (tree_segments o a) (k ∷ ks) then some a.id else none
              ])
              (file_at_segments (k ∷ ks) nodes)
    chosen (some id) = refl
    chosen none = elim (Bool-cases (segments_eq (tree_segments o a) (k ∷ ks))) [
      | inl e ↦ rw e refl
      | inr e ↦ rw e refl
    ]

no_file : (k : Text) (ks : List Text) → file_at_segments (k ∷ ks) no_nodes ≡ none
unfolding file_at_segments child file_of children_of
no_file k [] = refl
no_file k (l ∷ ks) = no_file l ks

or_file-none : (o : Option Text) → or_file o none ≡ o
or_file-none none = refl
or_file-none (some id) = refl

-- On a database that answers there is a tree, and before its siblings are sorted, segments lead to a
-- file just where an asset that the options ask for is shown at them; the file stands for the last such
-- asset in the order of the listing.
pub unsorted_tree_lem :
    (ctx : Context) (o : ListOptions) (db : Db)
    → fails ctx db ≡ false
    → (tree : TreeNodes) × (unsorted_tree ctx o db ≡ ok tree)
      × ((k : Text) (ks : List Text)
          → file_at_segments (k ∷ ks) tree ≡ last_at o (wanted_rows o db) (k ∷ ks))
unfolding unsorted_tree grown
unsorted_tree_lem ctx o db up = (
  grow o (wanted_rows o db) no_nodes,
  ap (grown o) (list_all_for_tree_lem ctx o db up),
  λ k ks.
      grow_lem o (wanted_rows o db) no_nodes k ks
      ∙ (rw (no_file k ks) (or_file-none (last_at o (wanted_rows o db) (k ∷ ks)))),
)
