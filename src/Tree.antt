-- ===== src/Tree.antt =====
-- client/src/components/subjects/tree.ts: `flattenTree`, which lays the nodes of the tree out as rows. The
-- merging of the entries of the connections into nodes is left out:
-- a node comes as it was merged, without the preview of its last message.
pub mod Rows
use nats_explorer.Prelude.{
  ℕ, ◌+◌, Text, codes, text_beq, List, [], ◌∷◌, ◌++◌, Bool, true, false, not, ◌||◌, ◌&&◌,
  if◌then◌else◌, ltb, starts_with, ◌==◌, text_eq,
}

-- What a row shows of a node.
pub record NodeInfo : Type 0 where
  pub segment : Text
  pub full_subject : Text
  pub total : ℕ
  pub rate : ℕ
  pub total_rate : ℕ
  pub child_count : ℕ
  pub subjects : ℕ
  pub conn_ids : List Text

mutual
  pub data TreeNode : Type 0 where
    node : NodeInfo → TreeNodes → TreeNode

  pub data TreeNodes : Type 0 where
    leaf : TreeNodes
    beside : TreeNode → TreeNodes → TreeNodes

pub record FlatNode : Type 0 where
  pub subject : Text
  pub segment : Text
  pub depth : ℕ
  pub has_children : Bool
  pub expanded : Bool
  pub guides : List Bool
  pub total : ℕ
  pub rate : ℕ
  pub total_rate : ℕ
  pub subjects : ℕ
  pub conn_ids : List Text

abbrev pub is_some_node : TreeNodes → Bool
is_some_node leaf = false
is_some_node (beside n ns) = true

abbrev pub has_children_of : NodeInfo → TreeNodes → Bool
has_children_of info children = ltb 0 info.child_count || is_some_node children

unfoldable pub row_of : (Text → Bool) → NodeInfo → TreeNodes → ℕ → List Bool → FlatNode
row_of is_expanded info children depth guides = record {
  subject = info.full_subject;
  segment = info.segment;
  depth = depth;
  has_children = has_children_of info children;
  expanded = has_children_of info children && is_expanded info.full_subject;
  guides = guides;
  total = info.total;
  rate = info.rate;
  total_rate = info.total_rate;
  subjects = info.subjects;
  conn_ids = info.conn_ids;
}

-- The function `walk`: the rows of siblings, of which the last has no guide line below it.
unfoldable pub rows_of : (Text → Bool) → TreeNodes → ℕ → List Bool → List FlatNode
rows_of is_expanded leaf depth guides = []
rows_of is_expanded (beside (node info children) rest) depth guides =
    let row = row_of is_expanded info children depth guides in
    let below = rows_of is_expanded children (depth + 1) (guides ++ is_some_node rest ∷ []) in
    row ∷ (if row.expanded then below else []) ++ rows_of is_expanded rest depth guides

-- Requests' inboxes and the subjects of the server itself.
unfoldable pub is_system_root : Text → Bool
is_system_root segment = segment == codes "_INBOX" || starts_with (codes "$") segment

unfoldable pub shown_roots : TreeNodes → TreeNodes
shown_roots leaf = leaf
shown_roots (beside (node info children) rest) =
    let kept = shown_roots rest in
    if is_system_root info.segment then kept else beside (node info children) kept

unfoldable pub flatten_tree : (Text → Bool) → Bool → TreeNodes → List FlatNode
flatten_tree is_expanded hide_system roots =
    rows_of is_expanded (if hide_system then shown_roots roots else roots) 0 []
