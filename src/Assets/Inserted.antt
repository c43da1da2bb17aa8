-- ===== src/Assets/Inserted.antt =====
-- assets/repository.go, insertTreeNode and Tree: a tree is a map from segments to files.
use honeygen.Prelude.{
  ◌≡◌, refl, ◌∙◌, sym, ap, inl, inr, Bool, false, true, ◌&&◌, Option, none, some, List, [], ◌∷◌,
  if◌then◌else◌, Bool-cases,
}
use honeygen.Text.{Text, text_eq}
use honeygen.Text.Equality.{text_eq_iff}
use honeygen.Assets.Tree.{
  directory, file, TreeNode, node, TreeNodes, no_nodes, more, name_of, place, made_file,
  with_children, current_path, insert_tree_node,
}

-- the first node with a name
unfoldable pub child : Text → TreeNodes → Option TreeNode
child name no_nodes = none
child name (more n nodes) = if text_eq (name_of n) name then some n else child name nodes

unfoldable pub file_of : Option TreeNode → Option Text
file_of none = none
file_of (some (node name path directory id children)) = none
file_of (some (node name path file id children)) = some id

unfoldable pub children_of : Option TreeNode → TreeNodes
children_of none = no_nodes
children_of (some (node name path kind id children)) = children

-- the asset of the file that the segments lead to
unfoldable pub file_at_segments : List Text → TreeNodes → Option Text
unfolding child file_of children_of
file_at_segments [] nodes = none
file_at_segments (name ∷ []) nodes = file_of (child name nodes)
file_at_segments (name ∷ next ∷ segments) nodes =
    file_at_segments (next ∷ segments) (children_of (child name nodes))

unfoldable pub segments_eq : List Text → List Text → Bool
segments_eq [] [] = true
segments_eq [] (t ∷ ts) = false
segments_eq (s ∷ ss) [] = false
segments_eq (s ∷ ss) (t ∷ ts) = text_eq s t && segments_eq ss ts

found_or_new : Text → Text → Option TreeNode → TreeNode
found_or_new name path none = node name path directory [] no_nodes
found_or_new name path (some n) = n

module _ (name path : Text) (change : TreeNode → TreeNode)
    (same_name : (n : TreeNode) → name_of (change n) ≡ name_of n) where
  child-place :
      (k : Text) (nodes : TreeNodes)
      → child k (place name path change nodes) ≡ (
          if text_eq name k
          then some (change (found_or_new name path (child name nodes)))
          else child k nodes)
  unfolding child place found_or_new name_of
  child-place k no_nodes = rw (same_name (node name path directory [] no_nodes)) refl
  child-place k (more n nodes) = elim (Bool-cases (text_eq (name_of n) name)) [
    | inl here ↦
        let same : name_of n ≡ name = (text_eq_iff (name_of n) name).0 here in
        rw (here, same_name n, same)
          (elim (Bool-cases (text_eq name k)) [ inl e ↦ rw e refl | inr e ↦ rw e refl ])
    | inr other ↦
        rw (other, child-place k nodes)
          (elim (Bool-cases (text_eq name k)) [
            | inl e ↦
                let unlike : text_eq (name_of n) k ≡ false =
                  ap (text_eq (name_of n)) (sym ((text_eq_iff name k).0 e)) ∙ other in
                rw (e, unlike) refl
            | inr e ↦ rw e refl
          ])
  ]

made_file-name : (id : Text) (n : TreeNode) → name_of (made_file id n) ≡ name_of n
unfolding made_file name_of
made_file-name id (node name path kind old children) = refl

with_children-name :
    (change : TreeNodes → TreeNodes) (n : TreeNode) → name_of (with_children change n) ≡ name_of n
unfolding with_children name_of
with_children-name change (node name path kind id children) = refl

file_of-made_file : (id : Text) (n : TreeNode) → file_of (some (made_file id n)) ≡ some id
unfolding made_file file_of
file_of-made_file id (node name path kind old children) = refl

file_of-with_children :
    (name path : Text) (change : TreeNodes → TreeNodes) (o : Option TreeNode)
    → file_of (some (with_children change (found_or_new name path o))) ≡ file_of o
unfolding with_children file_of found_or_new
file_of-with_children name path change none = refl
file_of-with_children name path change (some (node name' path' directory id children)) = refl
file_of-with_children name path change (some (node name' path' file id children)) = refl

children_of-made_file :
    (name path id : Text) (o : Option TreeNode)
    → children_of (some (made_file id (found_or_new name path o))) ≡ children_of o
unfolding made_file children_of found_or_new
children_of-made_file name path id none = refl
children_of-made_file name path id (some (node name' path' kind old children)) = refl

children_of-with_children :
    (name path : Text) (change : TreeNodes → TreeNodes) (o : Option TreeNode)
    → children_of (some (with_children change (found_or_new name path o))) ≡ change (children_of o)
unfolding with_children children_of found_or_new
children_of-with_children name path change none = refl
children_of-with_children name path change (some (node name' path' kind id children)) = refl

-- `insertTreeNode` makes the segments lead to the asset, and leaves where all others lead.
pub insert_tree_node_lem :
    (id prefix name : Text) (segments other : List Text) (nodes : TreeNodes)
    → file_at_segments other (insert_tree_node id prefix (name ∷ segments) nodes)
      ≡ (if segments_eq (name ∷ segments) other then some id else file_at_segments other nodes)
unfolding insert_tree_node file_at_segments segments_eq
insert_tree_node_lem id prefix name [] [] nodes = refl
insert_tree_node_lem id prefix name (next ∷ segments) [] nodes = refl
insert_tree_node_lem id prefix name [] (k ∷ []) nodes =
    let path = current_path prefix name in
    rw (child-place name path (made_file id) (made_file-name id) k nodes)
      (elim (Bool-cases (text_eq name k)) [
        | inl e ↦ rw (e, file_of-made_file id (found_or_new name path (child name nodes))) refl
        | inr e ↦ rw e refl
      ])
insert_tree_node_lem id prefix name [] (k ∷ l ∷ other) nodes =
    let path = current_path prefix name in
    rw (child-place name path (made_file id) (made_file-name id) k nodes)
      (elim (Bool-cases (text_eq name k)) [
        | inl e ↦
            rw (e, children_of-made_file name path id (child name nodes))
              (ap (λ j. file_at_segments (l ∷ other) (children_of (child j nodes)))
                ((text_eq_iff name k).0 e))
        | inr e ↦ rw e refl
      ])
insert_tree_node_lem id prefix name (next ∷ segments) (k ∷ []) nodes =
    let path = current_path prefix name in
    let change = insert_tree_node id path (next ∷ segments) in
    rw (child-place name path (with_children change) (with_children-name change) k nodes)
      (elim (Bool-cases (text_eq name k)) [
        | inl e ↦
            rw (e, file_of-with_children name path change (child name nodes))
              (ap (λ j. file_of (child j nodes)) ((text_eq_iff name k).0 e))
        | inr e ↦ rw e refl
      ])
insert_tree_node_lem id prefix name (next ∷ segments) (k ∷ l ∷ other) nodes =
    let path = current_path prefix name in
    let change = insert_tree_node id path (next ∷ segments) in
    rw (child-place name path (with_children change) (with_children-name change) k nodes)
      (elim (Bool-cases (text_eq name k)) [
        | inl e ↦
            rw
              (
                e,
                children_of-with_children name path change (child name nodes),
                insert_tree_node_lem id path next segments (l ∷ other)
                    (children_of (child name nodes)),
              )
              (ap
                (λ j.
                  if segments_eq (next ∷ segments) (l ∷ other)
                  then some id
                  else file_at_segments (l ∷ other) (children_of (child j nodes)))
                ((text_eq_iff name k).0 e))
        | inr e ↦ rw e refl
      ])
