-- ===== src/Assets/Tree.antt =====
-- assets/repository.go, Tree: the assets as directories and files, before the siblings are sorted.
use honeygen.Prelude.{
  ℕ, Bool, ◌||◌, ◌==◌, ◌++◌, Option, none, some, List, [], ◌∷◌, if◌then◌else◌, Result, ok, err,
}
use honeygen.Text.{Text, codes, text_eq, trim, has_prefix, trim_prefix, split}
use honeygen.Path.{slash, path_join}
use honeygen.Database.{Asset, Db, Context}
use honeygen.Assets.{AssetError, ListOptions, list_all_for_tree}

pub data NodeKind : Type 0 where
  directory file : NodeKind

-- `TreeNode`, with its name, path, kind, asset and children
mutual
  pub data TreeNode : Type 0 where
    node : Text → Text → NodeKind → Text → TreeNodes → TreeNode

  pub data TreeNodes : Type 0 where
    no_nodes : TreeNodes
    more : TreeNode → TreeNodes → TreeNodes

unfoldable pub name_of : TreeNode → Text
name_of (node name path kind id children) = name

-- the first node with a name is changed, or else a new one is appended and changed
unfoldable pub place : Text → Text → (TreeNode → TreeNode) → TreeNodes → TreeNodes
unfolding name_of
place name path change no_nodes = more (change (node name path directory [] no_nodes)) no_nodes
place name path change (more n nodes) =
    let rest = place name path change nodes in
    if text_eq (name_of n) name then more (change n) nodes else more n rest

unfoldable pub made_file : Text → TreeNode → TreeNode
made_file id (node name path kind old children) = node name path file id children

unfoldable pub with_children : (TreeNodes → TreeNodes) → TreeNode → TreeNode
with_children change (node name path kind id children) = node name path kind id (change children)

unfoldable pub current_path : Text → Text → Text
current_path [] name = name
current_path (c ∷ prefix) name = (c ∷ prefix) ++ (slash ∷ name)

-- `insertTreeNode`
unfoldable pub insert_tree_node : Text → Text → List Text → TreeNodes → TreeNodes
unfolding place made_file with_children current_path
insert_tree_node id prefix [] nodes = nodes
insert_tree_node id prefix (name ∷ []) nodes =
    place name (current_path prefix name) (made_file id) nodes
insert_tree_node id prefix (name ∷ next ∷ segments) nodes =
    place name (current_path prefix name)
      (with_children (insert_tree_node id (current_path prefix name) (next ∷ segments))) nodes

is_slash : ℕ → Bool
is_slash c = c == slash

-- `trimTreePrefix`: `none` where it reports false
unfoldable pub trim_tree_prefix : Text → Text → Option Text
unfolding is_slash
trim_tree_prefix value prefix =
    let v = trim is_slash value in
    let p = trim is_slash prefix in
    if text_eq v [] || text_eq p [] || text_eq v p
    then none
    else if has_prefix v (p ++ slash ∷ [])
    then some (trim_prefix v (p ++ slash ∷ []))
    else none

display_parts : List Text → List Text
unfolding is_slash
display_parts [] = []
display_parts (p ∷ parts) =
    let rest = display_parts parts in
    let trimmed = trim is_slash p in if text_eq trimmed [] then rest else trimmed ∷ rest

-- `joinDisplayPrefix`
unfoldable pub join_display_prefix : List Text → Text
unfolding display_parts
join_display_prefix parts = elim (display_parts parts) [ [] ↦ [] | p ∷ rest ↦ path_join (p ∷ rest) ]

or_else : Option Text → Text → Text
or_else none t = t
or_else (some s) t = s

-- `displayPath`
unfoldable pub display_path : Asset → ListOptions → Text
unfolding is_slash or_else
display_path a o =
    let trimmed = trim is_slash a.path in
    let in_world =
      if text_eq o.world_model_id []
      then trimmed
      else or_else
          (trim_tree_prefix trimmed
            (join_display_prefix (codes "generated" ∷ o.world_model_id ∷ [])))
          (or_else (trim_tree_prefix trimmed o.world_model_id) trimmed) in
    if text_eq o.generation_job_id []
    then in_world
    else or_else
        (trim_tree_prefix trimmed
          (join_display_prefix (codes "generated" ∷ a.world_model_id ∷ o.generation_job_id ∷ [])))
        in_world

unfoldable pub tree_segments : ListOptions → Asset → List Text
unfolding is_slash
tree_segments o a = split slash (trim is_slash (display_path a o))

-- the loop of `Tree` over the listed assets
unfoldable pub grow : ListOptions → List Asset → TreeNodes → TreeNodes
grow o [] root = root
grow o (a ∷ items) root = grow o items (insert_tree_node a.id [] (tree_segments o a) root)

-- behind `listAllForTree`
unfoldable pub grown : ListOptions → Result AssetError (List Asset) → Result AssetError TreeNodes
grown o (err e) = err e
grown o (ok items) = ok (grow o items no_nodes)

-- `Tree` up to the sorting
unfoldable pub unsorted_tree : Context → ListOptions → Db → Result AssetError TreeNodes
unfolding grown
unsorted_tree ctx o db = grown o (list_all_for_tree ctx o db)
