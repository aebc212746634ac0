-- ===== src/Kb/Sections.antt =====
-- crates/sap-automate-kb/src/doc_tree.rs: the nodes of a document's tree, the walks over them, and the
-- sections of a body.
use sap_automate.Base.{
  keep, not, ℕ, ◌+◌, ◌/◌, ◌%◌, ◌^◌, String, Option, none, some, List, [], ◌∷◌, ◌++◌, ◌==◌,
  if◌then◌else◌, nat_key, string_key, pair_key, Text, text_eq, text_key, byte_len, get_range, map,
}
use sap_automate.Kb.Headings.{is_empty, Heading, extract_summary}

-- `DocTreeNode` without its children.
pub record NodeFields : Type 0 where
  pub path : Text
  pub depth : ℕ
  pub title : Text
  pub summary : Text
  pub start_index : ℕ
  pub end_index : ℕ
  pub approx_tokens : ℕ

mutual
  pub data DocTreeNode : Type 0 where
    node : (fields : NodeFields) (children : DocTreeNodes) → DocTreeNode

  -- `Vec<DocTreeNode>`
  pub data DocTreeNodes : Type 0 where
    nil : DocTreeNodes
    cons : DocTreeNode → DocTreeNodes → DocTreeNodes

pub record DocumentTree : Type 0 where
  pub document_id : String
  pub root : DocTreeNode
  pub leaf_count : ℕ
  pub max_depth : ℕ

-- The fields of `Document` (crates/sap-automate-kb/src/schema.rs) that the tree is built of.
pub record Document : Type 0 where
  pub id : String
  pub title : Text
  pub body : Text

pub record PreparedSection : Type 0 where
  pub depth : ℕ
  pub title : Text
  pub start : ℕ
  pub body_start : ℕ
  pub end : ℕ

-- `sections.windows(2)`
unfoldable pub windows : List Heading → List PreparedSection
windows [] = []
windows (cur ∷ []) = []
windows (cur ∷ next ∷ rest) =
    let more = windows (next ∷ rest) in
    if cur.depth == 0
    then more
    else record {
      depth = cur.depth;
      title = cur.title;
      start = cur.marker_start;
      body_start = cur.body_start;
      end = next.marker_start;
    }
      ∷ more

-- The headings with the sentinel behind them, and their windows.
unfoldable pub prepare : ℕ → List Heading → List PreparedSection
unfolding windows
prepare body_len headings = windows (
    headings
    ++ record { depth = 0; title = []; marker_start = body_len; body_start = body_len } ∷ [])

or_empty : Option Text → Text
or_empty none = []
or_empty (some s) = s

-- A section's node, without its path.
unfoldable pub fields_of : Text → PreparedSection → NodeFields
unfolding or_empty extract_summary get_range
fields_of body ps =
    let body_slice = or_empty (get_range ps.body_start ps.end body) in
    record {
      path = [];
      depth = ps.depth;
      title = ps.title;
      summary = extract_summary body_slice;
      start_index = ps.start;
      end_index = ps.end;
      approx_tokens = byte_len body_slice / 4 % 2 ^ 32;
    }

-- `count_leaves`
unfoldable pub count_leaves : DocTreeNodes → ℕ
count_leaves nil = 0
count_leaves (cons (node f nil) ns) = 1 + count_leaves ns
count_leaves (cons (node f (cons c cs)) ns) = count_leaves (cons c cs) + count_leaves ns

-- `DocTreeNode::count`, summed over nodes
unfoldable pub count : DocTreeNodes → ℕ
count nil = 0
count (cons (node f cs) ns) = 1 + count cs + count ns

-- `DocTreeNode::visit`: the nodes in the order of the walk.
unfoldable pub visit : DocTreeNodes → List NodeFields
visit nil = []
visit (cons (node f cs) ns) = f ∷ visit cs ++ visit ns

-- `DocumentTree::node_count`
unfoldable pub node_count : DocumentTree → ℕ
unfolding count
node_count t = count (cons t.root nil)

-- `DocumentTree::flat_titles`
unfoldable pub flat_titles : DocumentTree → List (Text × Text)
unfolding visit is_empty
flat_titles t =
    map (λ f. (f.path, f.title)) (keep (λ f. not (is_empty f.path)) (visit (cons t.root nil)))

-- `DocTreeNode::find`
unfoldable pub find_path : Text → DocTreeNodes → Option DocTreeNode
unfolding text_eq
find_path path nil = none
find_path path (cons (node f cs) ns) =
    let below = find_path path cs in
    let behind = find_path path ns in
    if text_eq f.path path then some (node f cs) else or_node below behind
  where
    or_node : Option DocTreeNode → Option DocTreeNode → Option DocTreeNode
    or_node none other = other
    or_node (some n) other = some n

-- The node that wraps the roots.
unfoldable pub root_fields : Document → NodeFields
unfolding extract_summary
root_fields doc = record {
  path = [];
  depth = 0;
  title = doc.title;
  summary = extract_summary doc.body;
  start_index = 0;
  end_index = byte_len doc.body;
  approx_tokens = byte_len doc.body / 4 % 2 ^ 32;
}
