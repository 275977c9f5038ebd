-- ===== src/Ui/Root/Focus.antt =====
-- The focus of `Root` (src/ui/root.rs), and what is passed to the form that has it.
use wrb.Common.{ℕ, Bool, true, false, Option, none, some, List, [], ◌∷◌, ◌++◌, ◌==◌, if◌then◌else◌}
use wrb.Common.Order.{nat_ord}
use wrb.Common.Map.{lookup, insert, remove}
use wrb.Storage.Codec.{Result, ok, err}
use wrb.Ui.CharBuff.{CharBuff, CharCell, blank, fill}
use wrb.Ui.Root.{Root, WrbForm, focusable, make_charbuff}

abbrev pub same_element : Option ℕ → ℕ → Bool
same_element none element_id = false
same_element (some cur) element_id = cur == element_id

-- `for i in 0..(element_ids.len() - 1)`, from the element before these
unfoldable pub link_next : ℕ → List ℕ → List (ℕ × ℕ) → List (ℕ × ℕ)
link_next id [] order = order
link_next id (next ∷ ids) order = link_next next ids (insert id next order)

unfoldable pub link_prev : ℕ → List ℕ → List (ℕ × ℕ) → List (ℕ × ℕ)
link_prev id [] order = order
link_prev id (next ∷ ids) order = link_prev next ids (insert next id order)

abbrev pub last_of : ℕ → List ℕ → ℕ
last_of id [] = id
last_of id (next ∷ ids) = last_of next ids

module _ {F V : Type 0} where
  abbrev pub set_focus_order : Root F V → List ℕ → Root F V
  set_focus_order root [] = record root { focus_order = []; focus_first = none }
  set_focus_order root (id ∷ ids) = record root {
    focus_order = insert (last_of id ids) id (link_next id ids []);
    reverse_focus_order = insert id (last_of id ids) (link_prev id ids []);
    focus_first = some id;
  }

  module _ {E K : Type 0} (form : WrbForm F V E K) where
    abbrev pub is_focusable_form : Option F → Bool
    is_focusable_form none = false
    is_focusable_form (some f) = focusable (form.type_id f)

    -- The loop of `make_focus_order`: the elements that can have the focus, in the order of the
    -- cells, with no element next to itself.
    unfoldable pub focus_ids : List (ℕ × F) → Option ℕ → List CharCell → List ℕ
    focus_ids forms cur [] = []
    focus_ids forms cur (blank ∷ cells) = focus_ids forms cur cells
    focus_ids forms cur (fill value bg fg element_id ∷ cells) =
        let rest = focus_ids forms cur cells in
        let next = focus_ids forms (some element_id) cells in
        if is_focusable_form (lookup element_id forms)
        then (if same_element cur element_id then rest else element_id ∷ next)
        else rest

    unfoldable pub make_focus_order : Root F V → CharBuff → Root F V
    unfolding focus_ids link_next link_prev
    make_focus_order root buff = set_focus_order root (focus_ids root.forms none buff.cells)

    abbrev pub with_order : Option (CharBuff × Root F V) → Option (CharBuff × Root F V)
    with_order none = none
    with_order (some (buff, root)) = some (buff, make_focus_order root buff)

    abbrev pub render : Root F V → Option (CharBuff × Root F V)
    render root = with_order (make_charbuff root)

    -- Refresh using a new z-buffer.
    abbrev pub refresh : Root F V → Option (CharBuff × Root F V)
    refresh root = render (record root { zbuff = none })

    -- What a call of a form leaves: the form is put back, but after an error it stays taken out.
    abbrev pub put_back : ℕ → Result E (Unit {0}) × (F × Root F V) → Result E (Unit {0}) × Root F V
    put_back id (ok u, (f, root)) = (ok tt, record root { forms = insert id f root.forms })
    put_back id (err e, (f, root)) = (err e, root)

    abbrev pub focus_taken : Option F → ℕ → Bool → Root F V → Result E (Unit {0}) × Root F V
    focus_taken none id focused root = (ok tt, root)
    focus_taken (some f) id focused root =
        put_back id (form.focus f (record root { forms = remove id root.forms }) focused)

    -- `if let Some(id) = .. { if let Some(mut form) = self.forms.remove(&id) { .. } }`
    abbrev pub focus_form : Option ℕ → Bool → Root F V → Result E (Unit {0}) × Root F V
    focus_form none focused root = (ok tt, root)
    focus_form (some id) focused root = focus_taken (lookup id root.forms) id focused root

    -- The element that has the focus next.
    abbrev pub next_focused : Bool → Option ℕ → Root F V → Option ℕ
    next_focused reverse none root = root.focus_first
    next_focused true (some id) root = lookup id root.reverse_focus_order
    next_focused false (some id) root = lookup id root.focus_order

    abbrev pub focus_new : Result E (Unit {0}) × Root F V → Result E (Unit {0}) × Root F V
    focus_new (ok u, root) = focus_form root.focused true root
    focus_new (err e, root) = (err e, root)

    unfoldable pub inner_next_focus : Bool → Root F V → Result E (Unit {0}) × Root F V
    inner_next_focus reverse root = focus_new (
        focus_form root.focused false
          (record root { focused = next_focused reverse root.focused root }))

    abbrev pub next_focus : Root F V → Result E (Unit {0}) × Root F V
    next_focus root = inner_next_focus false root

    abbrev pub prev_focus : Root F V → Result E (Unit {0}) × Root F V
    prev_focus root = inner_next_focus true root

    unfoldable pub clear_focus : Root F V → Result E (Unit {0}) × Root F V
    clear_focus root = focus_form root.focused false (record root { focused = none })

    abbrev pub pushed : F → Option V → Root F V → Root F V
    pushed f none root = root
    pushed f (some payload) root = record root {
      runtime_events =
          root.runtime_events
          ++ (record {
            element_type = form.type_id f;
            element_id = form.element_id f;
            event_payload = payload;
          }
              ∷ []);
    }

    abbrev pub after_event :
        ℕ → Result E (Option V) × (F × Root F V) → Result E (Unit {0}) × Root F V
    after_event id (ok payload, (f, root)) =
        (ok tt, pushed f payload (record root { forms = insert id f root.forms }))
    after_event id (err e, (f, root)) = (err e, root)

    abbrev pub event_taken : Option F → ℕ → K → Root F V → Result E (Unit {0}) × Root F V
    event_taken none id event root = (ok tt, root)
    event_taken (some f) id event root =
        after_event id (form.handle_event f (record root { forms = remove id root.forms }) event)

    -- Pass an event to the focused form, and drop it where there is none.
    unfoldable pub handle_event : K → Root F V → Result E (Unit {0}) × Root F V
    handle_event event root = elim root.focused [
      | none ↦ (ok tt, root)
      | some id ↦ event_taken (lookup id root.forms) id event root
    ]
