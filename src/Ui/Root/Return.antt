-- ===== src/Ui/Root/Return.antt =====
-- `Root::next_focus` and `Root::prev_focus` (src/ui/root.rs), in the order of
-- `Root::make_focus_order`.
use wrb.Common.{
  ==_iff, ℕ, Bool, true, false, Option, none, some, List, [], ◌∷◌, ◌≡◌, refl, sym, ◌∙◌, ap, inl,
  inr, Bool-cases, Option-cases, ◌==◌, ==_iff,
}
use wrb.Common.Order.{nat_ord, beq_refl}
use wrb.Common.Map.{lookup, insert, remove, lookup-insert}
use wrb.Storage.Codec.{ok}
use wrb.Ui.CharBuff.{CharBuff}
use wrb.Ui.Root.{Root, WrbForm}
use wrb.Ui.Root.Focus.{
  last_of, link_next, link_prev, set_focus_order, make_focus_order, focus_ids, focus_form, put_back,
  focus_new, next_focused, inner_next_focus, next_focus, prev_focus,
}
use wrb.Ui.Root.Cycle.{
  lookup-link_next, lookup-link_prev, before-after, IsDistinct, after, lookup-link_next,
  lookup-link_prev, before-after,
}

module _ {F V : Type 0} where
  -- The reverse order undoes the order.
  reverse-order :
      (root : Root F V) (ids : List ℕ) (k m : ℕ)
      → IsDistinct ids
      → lookup k (set_focus_order root ids).focus_order ≡ some m
      → lookup m (set_focus_order root ids).reverse_focus_order ≡ some k
  unfolding lookup
  reverse-order root [] k m distinct e = cc
  reverse-order root (id ∷ ids) k m distinct e = elim (Bool-cases (k == last_of id ids)) [
    | inl same ↦
        let follows = sym (lookup-insert (last_of id ids) k id (link_next id ids [])) ∙ e in
        let first : some id ≡ some m = rw same at follows in
        let is_last : k ≡ last_of id ids = (==_iff k (last_of id ids)).0 same in
        let is_first : m ≡ id = cc in
        lookup-insert id m (last_of id ids) (link_prev id ids [])
        ∙ rw (is_first, beq_refl id) (ap some (sym is_last))
    | inr other ↦
        let (comes, apart) =
          before-after id id ids k m distinct other (sym (order_after other) ∙ e) in
        lookup-insert id m (last_of id ids) (link_prev id ids [])
        ∙ rw (apart id distinct.0) (lookup-link_prev id ids [] m distinct ∙ comes)
  ]
    where
      order_after :
          k == last_of id ids ≡ false
          → lookup k (set_focus_order root (id ∷ ids)).focus_order ≡ after id id ids none k
      order_after other =
          lookup-insert (last_of id ids) k id (link_next id ids [])
          ∙ lookup-link_next id id ids [] k distinct

  focused-set_focus_order :
      (root : Root F V) (ids : List ℕ) → (set_focus_order root ids).focused ≡ root.focused
  focused-set_focus_order root [] = refl
  focused-set_focus_order root (id ∷ ids) = refl

  -- The focus and its orders are the same.
  abbrev pub SameFocus : Root F V → Root F V → Type 0
  SameFocus root root' =
      (root'.focused ≡ root.focused)
      × (root'.focus_order ≡ root.focus_order)
      × (root'.reverse_focus_order ≡ root.reverse_focus_order)

  module _ {E K : Type 0} (form : WrbForm F V E K) where
    -- A form that is told of the focus succeeds and leaves the focus as it is.
    abbrev pub KeepsFocus : Type 0
    KeepsFocus =
        (f : F) (root : Root F V) (focused : Bool)
        → (f' : F) × (root' : Root F V) × (form.focus f root focused ≡ (ok tt, (f', root')))
          × SameFocus root root'

    module _ (keeps : KeepsFocus) where
      focus_form_keeps :
          (o : Option ℕ) (focused : Bool) (root : Root F V)
          → (root' : Root F V) × (focus_form form o focused root ≡ (ok tt, root'))
            × SameFocus root root'
      focus_form_keeps none focused root = (root, refl, (refl, refl, refl))
      focus_form_keeps (some id) focused root = elim (Option-cases (lookup id root.forms)) [
        | inl missing ↦ rw missing (root, refl, (refl, refl, refl))
        | inr (f, found) ↦
            let (f', root', e, same) =
              keeps f (record root { forms = remove id root.forms }) focused in
            rw found
              (record root' { forms = insert id f' root'.forms }, ap (put_back form id) e, same)
      ]

      inner_next_focus_lem :
          (reverse : Bool) (root : Root F V)
          → (root' : Root F V) × (inner_next_focus form reverse root ≡ (ok tt, root'))
            × (root'.focused ≡ next_focused form reverse root.focused root)
            × (root'.focus_order ≡ root.focus_order)
            × (root'.reverse_focus_order ≡ root.reverse_focus_order)
      unfolding inner_next_focus
      inner_next_focus_lem reverse root =
          let moved : Root F V = record root {
            focused = next_focused form reverse root.focused root;
          } in
          let (root₁, e₁, (at₁, order₁, back₁)) = focus_form_keeps root.focused false moved in
          let (root₂, e₂, (at₂, order₂, back₂)) = focus_form_keeps root₁.focused true root₁ in
          (root₂, ap (focus_new form) e₁ ∙ e₂, at₂ ∙ at₁, order₂ ∙ order₁, back₂ ∙ back₁)

      -- After make_focus_order, if no element comes twice among the elements that it orders,
      -- next_focus moves the focus from an element to the one that follows it in the order, and
      -- prev_focus then moves it back. Both succeed, if a form that is told of the focus succeeds
      -- and leaves the focus and its orders as they are.
      pub prev_focus-next_focus :
          (root : Root F V) (buff : CharBuff) (id next : ℕ)
          → IsDistinct (focus_ids form root.forms none buff.cells)
          → root.focused ≡ some id
          → lookup id (make_focus_order form root buff).focus_order ≡ some next
          → (there : Root F V) × (back : Root F V) × (next_focus form
                (make_focus_order form root buff)
              ≡ (ok tt, there))
            × (there.focused ≡ some next)
            × (prev_focus form there ≡ (ok tt, back))
            × (back.focused ≡ some id)
      unfolding make_focus_order
      prev_focus-next_focus root buff id next distinct at_id follows =
          let ordered = make_focus_order form root buff in
          let (there, e₁, at₁, order₁, back₁) = inner_next_focus_lem false ordered in
          let (back, e₂, at₂, order₂, back₂) = inner_next_focus_lem true there in
          let ids = focus_ids form root.forms none buff.cells in
          let at_next : there.focused ≡ some next =
            at₁
            ∙ ap (λ o. next_focused form false o ordered) (focused-set_focus_order root ids ∙ at_id)
            ∙ follows in
          (
            there,
            back,
            e₁,
            at_next,
            e₂,
            at₂
                ∙ ap (λ o. next_focused form true o there) at_next
                ∙ ap (lookup next) back₁
                ∙ reverse-order root ids id next distinct follows,
          )
