-- ===== src/Ui/SceneGraph.antt =====
-- `SceneGraph` (src/ui/root.rs): the viewports with their places on the root pane. `none` is a
-- panic, or a loop for good where the parents of viewports go round in a circle.
pub mod Top
use wrb.Common.{
  ℕ, zero, suc, ◌+◌, Bool, true, false, ◌&&◌, ◌||◌, not, Option, none, some, List, [], ◌∷◌, ◌++◌,
  ltb, leb, if◌then◌else◌, add_u64, max, length, get_elem?, replicate,
}
use wrb.Common.Order.{nat_ord}
use wrb.Common.Map.{lookup, insert}
use wrb.Ui.Viewport.{Viewport}

pub record SceneGraph : Type 0 where
  pub viewports : List Viewport
  -- map viewport ID to index in viewports
  pub viewport_table : List (ℕ × ℕ)
  -- viewport-to-parent-index map
  pub tree : List (ℕ × Option ℕ)
  -- viewports at index i+1 have parents at index i
  pub hierarchy : List (List ℕ)
  -- viewport absolute coordinate offsets
  pub coord_offsets : List (ℕ × (ℕ × ℕ))

unfoldable pub build_table : ℕ → List Viewport → List (ℕ × ℕ) → List (ℕ × ℕ)
build_table i [] table = table
build_table i (vp ∷ viewports) table = build_table (suc i) viewports (insert vp.id i table)

-- The parent's index of a viewport; `none` where the parent has no entry.
abbrev pub parent_index : List (ℕ × ℕ) → Option ℕ → Option (Option ℕ)
parent_index table none = some none
parent_index table (some parent_id) = elim (lookup parent_id table) [
  | none ↦ none
  | some i ↦ some (some i)
]

unfoldable pub build_tree :
    List (ℕ × ℕ) → List Viewport → List (ℕ × Option ℕ) → Option (List (ℕ × Option ℕ))
build_tree table [] tree = some tree
build_tree table (vp ∷ viewports) tree = elim (parent_index table vp.parent) [
  | none ↦ none
  | some parent ↦ build_tree table viewports (insert vp.id parent tree)
]

-- What the loop over the viewports has made: the offsets, the depths by index, and the deepest.
pub record Places : Type 0 where
  pub coord_offsets : List (ℕ × (ℕ × ℕ))
  pub depths : List (ℕ × ℕ)
  pub max_depth : ℕ

-- Where a walk to the root ends: the row, the column and the depth.
pub record Place : Type 0 where
  pub row : ℕ
  pub col : ℕ
  pub depth : ℕ

abbrev pub moved : Place → ℕ → ℕ → ℕ → Place
moved p row col depth = record { row = add_u64 p.row row; col = add_u64 p.col col; depth = depth }

-- A parent that was processed ends the walk.
abbrev pub at_processed : Place → ℕ × ℕ → Option ℕ → Option Place
at_processed p offset none = none
at_processed p offset (some parent_depth) = some (moved p offset.0 offset.1 (suc parent_depth))

-- `while let Some(Some(parent_index)) = tree.get(&id)`, with the rounds that it may take.
unfoldable pub walk : ℕ → List Viewport → List (ℕ × Option ℕ) → Places → ℕ → Place → Option Place
walk zero viewports tree places id p = none
walk (suc n) viewports tree places id p = elim (lookup id tree) [
  | none ↦ some p
  | some none ↦ some p
  | some (some parent_index) ↦ elim (get_elem? viewports parent_index) [
    | none ↦ none
    | some parent ↦ elim (lookup parent.id places.coord_offsets) [
      | some offset ↦ at_processed p offset (lookup parent_index places.depths)
      | none ↦
          walk n viewports tree places parent.id
            (moved p parent.start_row parent.start_col (suc p.depth))
    ]
  ]
]

abbrev pub placed : ℕ → ℕ → Places → Place → Places
placed i id places p = record {
  coord_offsets = insert id (p.row, p.col) places.coord_offsets;
  depths = insert i p.depth places.depths;
  max_depth = max places.max_depth p.depth;
}

-- The loop over the viewports that are left, from the index `i`.
unfoldable pub place_all :
    ℕ → List Viewport → List (ℕ × Option ℕ) → List Viewport → Places → Option Places
unfolding walk
place_all i all tree [] places = some places
place_all i all tree (vp ∷ viewports) places =
    elim (walk (suc (length all)) all tree places vp.id
      (record { row = vp.start_row; col = vp.start_col; depth = 0 })) [
        | none ↦ none
        | some p ↦ place_all (suc i) all tree viewports (placed i vp.id places p)
      ]

-- `hierarchy[depth].push(id)`
unfoldable pub push_at : ℕ → ℕ → List (List ℕ) → Option (List (List ℕ))
push_at depth id [] = none
push_at zero id (ids ∷ hierarchy) = some ((ids ++ (id ∷ [])) ∷ hierarchy)
push_at (suc depth) id (ids ∷ hierarchy) = elim (push_at depth id hierarchy) [
  | none ↦ none
  | some rest ↦ some (ids ∷ rest)
]

-- The loop over the depths.
unfoldable pub build_hierarchy :
    List Viewport → List (ℕ × ℕ) → List (List ℕ) → Option (List (List ℕ))
unfolding push_at
build_hierarchy viewports [] hierarchy = some hierarchy
build_hierarchy viewports ((vp_idx, depth) ∷ depths) hierarchy = elim (get_elem? viewports vp_idx) [
  | none ↦ none
  | some vp ↦ elim (push_at depth vp.id hierarchy) [
    | none ↦ none
    | some hierarchy' ↦ build_hierarchy viewports depths hierarchy'
  ]
]

unfoldable pub new : List Viewport → Option SceneGraph
unfolding build_table build_tree place_all build_hierarchy
new viewports =
    let table = build_table 0 viewports [] in
    elim (build_tree table viewports []) [
      | none ↦ none
      | some tree ↦
          elim (place_all 0 viewports tree viewports
            (record { coord_offsets = []; depths = []; max_depth = 0 })) [
              | none ↦ none
              | some places ↦
                  elim (build_hierarchy viewports places.depths
                    (replicate (suc places.max_depth) [])) [
                      | none ↦ none
                      | some hierarchy ↦ some (record {
                        viewports = viewports;
                        viewport_table = table;
                        tree = tree;
                        hierarchy = hierarchy;
                        coord_offsets = places.coord_offsets;
                      })
                    ]
            ]
    ]

abbrev pub from_offset : Option (ℕ × ℕ) → ℕ → ℕ → Option (ℕ × ℕ)
from_offset none rel_row rel_col = none
from_offset (some (row, col)) rel_row rel_col = some (add_u64 row rel_row, add_u64 col rel_col)

-- The absolute place of a place of a viewport.
unfoldable pub abs_coords : SceneGraph → ℕ → ℕ → ℕ → Option (ℕ × ℕ)
abs_coords sg viewport_id rel_row rel_col =
    from_offset (lookup viewport_id sg.coord_offsets) rel_row rel_col

unfoldable pub ref_viewport : SceneGraph → ℕ → Option Viewport
ref_viewport sg viewport_id = elim (lookup viewport_id sg.viewport_table) [
  | none ↦ none
  | some vp_index ↦ get_elem? sg.viewports vp_index
]

unfoldable pub viewport_coords : SceneGraph → ℕ → Option (ℕ × ℕ)
unfolding abs_coords
viewport_coords sg viewport_id = abs_coords sg viewport_id 0 0

-- Whether a place is in the box of a viewport with an offset.
abbrev pub in_box : Viewport → ℕ × ℕ → ℕ → ℕ → Bool
in_box vp offset row col =
    leb offset.0 row
    && (ltb row (add_u64 offset.0 vp.num_rows)
        && (leb offset.1 col && ltb col (add_u64 offset.1 vp.buff.num_cols)))

-- The body of the inner loop of `viewport_at`: whether it returns this viewport.
abbrev pub covers_with : Bool → Option Viewport → Option (ℕ × ℕ) → ℕ → ℕ → Bool
covers_with check_visible none offset row col = false
covers_with check_visible (some vp) none row col = false
covers_with check_visible (some vp) (some offset) row col =
    if check_visible && not vp.visible then false else in_box vp offset row col

unfoldable pub covers : SceneGraph → ℕ → ℕ → Bool → ℕ → Bool
unfolding ref_viewport
covers sg row col check_visible viewport_id =
    covers_with check_visible (ref_viewport sg viewport_id) (lookup viewport_id sg.coord_offsets)
      row col

-- `for id in ids.iter().rev()`, for the first that is covered
unfoldable pub search_back : (ℕ → Bool) → List ℕ → Option ℕ
search_back test [] = none
search_back test (id ∷ ids) = elim (search_back test ids) [
  | some found ↦ some found
  | none ↦ if test id then some id else none
]

-- `for viewport_ids in self.hierarchy.iter().rev()`
unfoldable pub search_levels : (ℕ → Bool) → List (List ℕ) → Option ℕ
unfolding search_back
search_levels test [] = none
search_levels test (ids ∷ levels) = elim (search_levels test levels) [
  | some found ↦ some found
  | none ↦ search_back test ids
]

-- The viewport that is seen at an absolute place.
unfoldable pub viewport_at : SceneGraph → ℕ → ℕ → Bool → Option ℕ
unfolding covers search_levels
viewport_at sg row col check_visible = search_levels (covers sg row col check_visible) sg.hierarchy
