-- ===== src/Tui/Lines.antt =====
-- The event lines of cmd/googlysync/tui.go: of a longer list, the ten first are shown, and as the
-- daemon lists its events oldest first these are the oldest.
use googlysync.Prelude.{
  ℕ, zero, suc, ◌+◌, ◌≤◌, ◌≡◌, refl, sym, ap, ◌∙◌, List, [], ◌∷◌, ◌++◌, map, arith, length, take,
  Str, Option-cases, inl, inr,
}
use googlysync.Tui.{
  EventMsg, Model, Formats, max_event_lines, format_event_line, event_lines, listed, view,
}

abbrev pub concat : List Str → Str
concat [] = []
concat (s ∷ ss) = s ++ concat ss

module _ (fmt : Formats) where
  event_lines-eq-take :
      (k i : ℕ) (es : List EventMsg)
      → k + i ≡ max_event_lines
      → event_lines fmt i es ≡ concat (map (format_event_line fmt) (take k es))
  unfolding event_lines
  event_lines-eq-take zero i [] h = refl
  event_lines-eq-take (suc k) i [] h = refl
  event_lines-eq-take zero i (e ∷ es) h = ground arith
  event_lines-eq-take (suc k) i (e ∷ es) h =
      ground (arith, event_lines-eq-take k (suc i) es (omega arith))

  take-append_more : (n : ℕ) (es fs : List EventMsg) → n ≤ length es → take n (es ++ fs) ≡ take n es
  take-append_more zero es fs h = refl
  take-append_more (suc n) [] fs h = absurd (omega arith)
  take-append_more (suc n) (e ∷ es) fs h = ap (◌∷◌ e) (take-append_more n es fs (omega arith))

  listed-cons :
      (e : EventMsg) (es : List EventMsg)
      → listed fmt (e ∷ es) ≡ concat (map (format_event_line fmt) (take max_event_lines (e ∷ es)))
  unfolding listed
  listed-cons e es = event_lines-eq-take max_event_lines 0 (e ∷ es) refl

  listed_more :
      (es : List EventMsg) (e : EventMsg)
      → max_event_lines ≤ length es
      → listed fmt (es ++ e ∷ []) ≡ listed fmt es
  listed_more [] e h = absurd (omega arith)
  listed_more (x ∷ es) e h =
      listed-cons x (es ++ e ∷ [])
      ∙ ap (λ l. concat (map (format_event_line fmt) l))
          (take-append_more max_event_lines (x ∷ es) (e ∷ []) h)
      ∙ sym (listed-cons x es)

  abbrev pub with_events : Model → List EventMsg → Model
  with_events m es = record m { status = record m.status { events = es } }

  -- Once the view has ten events, a further one, which the daemon lists behind them since it is
  -- newer, changes nothing that the view shows.
  pub view_newest_hidden :
      (m : Model) (es : List EventMsg) (e : EventMsg)
      → max_event_lines ≤ length es
      → view fmt (with_events m (es ++ e ∷ [])) ≡ view fmt (with_events m es)
  unfolding view
  view_newest_hidden m es e h = elim (Option-cases m.failed) [
    | inl f ↦ rw (f, view) (rw (listed_more es e h) refl)
    | inr (x, f) ↦ rw (f, view) refl
  ]
