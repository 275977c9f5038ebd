-- ===== src/Ui/GapBuffer/Lines.antt =====
-- `find_line_start` does not panic where the buffer has a cell.
use wrb.Common.{
  ℕ, zero, suc, ◌-◌, ◌<◌, ◌≤◌, ◌≡◌, refl, arith, some, List, length, ◌==◌, Bool-cases, inl, inr,
  get_elem?_total, ◌&&◌,
}
use wrb.Ui.GapBuffer.{
  line_after, GapBuffer, scan_back, find_line_start, set_line_start, is_none, chr,
}

scan_back_total :
    (buffer : List ℕ) (i : ℕ)
    → i < length buffer
    → (j : ℕ) × (scan_back buffer i ≡ some j) × (j ≤ i)
unfolding scan_back
scan_back_total buffer zero h = (0, refl, omega arith)
scan_back_total buffer (suc i) h =
    let c = get_elem?_total buffer (suc i) h in
    let ih = scan_back_total buffer i (omega arith) in
    elim (Bool-cases (c.0 == 10)) [
      | inl e ↦ (suc i, rw (c.1, e) refl, omega arith)
      | inr e ↦ (ih.0, rw (c.1, e) ih.1, omega (arith, ih.2))
    ]

pub find_line_start_total :
    (g : GapBuffer)
    → 0 < length g.buffer
    → g.cursor ≤ length g.buffer
    → (i : ℕ) × (find_line_start g ≡ some i)
unfolding find_line_start
find_line_start_total g h l =
    let c = get_elem?_total g.buffer (g.cursor - 1) (omega arith) in
    let j = scan_back_total g.buffer (g.cursor - 1) (omega arith) in
    let d = get_elem?_total g.buffer j.0 (omega (arith, j.2)) in
    elim (Bool-cases (c.0 == 10 && is_none (chr g))) [
      | inl e ↦ (g.cursor, rw (c.1, e) refl)
      | inr e ↦ (line_after g j.0 d.0, rw (c.1, e, j.1, d.1) refl)
    ]

-- Only the start of the line changes.
pub set_line_start_total :
    (g : GapBuffer)
    → 0 < length g.buffer
    → g.cursor ≤ length g.buffer
    → (i : ℕ) × (set_line_start g ≡ some (record g { line_start = i }))
set_line_start_total g h l = let i = find_line_start_total g h l in (i.0, rw i.1 refl)
