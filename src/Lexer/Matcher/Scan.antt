-- ===== src/Lexer/Matcher/Scan.antt =====
-- `matcher_scan` of src/lexer/matcher.c, and the functions around it. The generated automaton is a
-- parameter; it gets the matcher and may call what Lexer/Matcher/Fsm has.
use neoast.Common.{
  ℕ, zero, suc, ◌+◌, ◌-◌, ◌%◌, ◌^◌, List, Bool, true, false, not, ◌==◌, ltb, leb, ◌&&◌,
}
use neoast.Common.{if◌then◌else◌, sub64, pos, Option, none, some, Outcome, done, ◌>>=◌, read, write}
use neoast.Lexer.Vector.{size, resize, push_back}
use neoast.Lexer.Matcher.{Matcher, const_redo, const_unk}
use neoast.Lexer.Matcher.Buffer.{matcher_at_bol, matcher_at_end}
use neoast.Lexer.Matcher.Indent.{last_stop}

-- The last character before `loc`.
unfoldable pub char_before : List ℕ → ℕ → Outcome ℕ
char_before cells zero = done const_unk
char_before cells (suc loc) = read cells loc

-- The loop for the number of stops that stay, from `n` down.
unfoldable pub stops_kept : List ℕ → ℕ → ℕ → Outcome ℕ
stops_kept stops col zero = done 0
stops_kept stops col (suc n) = do
  stop ← read stops n
  let rest = stops_kept stops col n
  if leb stop col then done (suc n) else rest

module _ {E : Type 0} where
  unfoldable pub matcher_reset_text : Matcher E → Outcome (Matcher E)
  matcher_reset_text m =
      if m.chr == 0
      then done m
      else (do cells ← write m.buf (m.txt + m.len) m.chr; done (record m { buf = cells; chr = 0 }))

  -- `matcher_text`: the character behind the text makes room for a terminating 0. The result is the
  -- index of the text.
  unfoldable pub matcher_text : Matcher E → Outcome (ℕ × Matcher E)
  matcher_text m =
      if m.chr == 0
      then (do
        c ← read m.buf (m.txt + m.len)
        cells ← write m.buf (m.txt + m.len) 0
        done (m.txt, record m { buf = cells; chr = c }))
      else done (m.txt, m)

  abbrev pub matcher_size : Matcher E → ℕ
  matcher_size m = m.len

  unfoldable pub matcher_set_current : ℕ → Matcher E → Outcome (Matcher E)
  unfolding char_before
  matcher_set_current loc m = do
    got ← char_before m.buf loc
    done (record m { pos = loc; cur = loc; got = got })

  unfoldable pub matcher_set_current_match : ℕ → Matcher E → Outcome (Matcher E)
  unfolding matcher_set_current
  matcher_set_current_match loc m = do
    m' ← matcher_set_current loc m
    done (record m' { txt = m'.cur })

  -- From the label `scan` on.
  unfoldable pub begin_scan : Matcher E → Matcher E
  begin_scan m = record m { txt = m.cur; mrk = false; ind = m.pos; col = 0 }

  -- From the label `find` on.
  unfoldable pub begin_find : Matcher E → Matcher E
  begin_find m = record m { fsm = record (m.fsm) { c1 = pos (m.got) } }

  -- `if (n > 0) VECTOR_BACK(tab_, size_t) = col_`.
  unfoldable pub align_stop : ℕ → Matcher E → Outcome (Matcher E)
  align_stop zero m = done m
  align_stop (suc n) m = do
    stops ← write m.tab.items n m.col
    done (record m { tab = record (m.tab) { items = stops } })

  unfoldable pub drop_stops : Matcher E → Outcome (Matcher E)
  unfolding stops_kept align_stop
  drop_stops m = do
    n ← stops_kept m.tab.items m.col (size m.tab - 1)
    tab ← resize m.tab n (2 ^ 64 - 1)
    align_stop n (record m { ded = (m.ded + (size m.tab - n)) % 2 ^ 64; tab = tab })

  unfoldable pub add_stop : Matcher E → Outcome (Matcher E)
  add_stop m = do tab ← push_back m.tab m.col; done (record m { tab = tab })

  -- A margin in the text sets a stop, or drops those that are deeper.
  unfoldable pub update_stops : Matcher E → Outcome (Matcher E)
  unfolding add_stop drop_stops
  update_stops m =
      if size m.tab == 0
      then (if ltb 0 m.col then add_stop m else done m)
      else (last_stop m >>= λ stop.
          if ltb 0 m.col && ltb stop m.col
          then add_stop m
          else if ltb m.col stop
          then drop_stops m
          else done m)

  unfoldable pub check_stops : Matcher E → Outcome (Matcher E)
  unfolding update_stops
  check_stops m = if m.mrk && not (m.cap_index == const_redo) then update_stops m else done m

  -- A pending dedent: whether the automaton runs again, from the margin.
  unfoldable pub check_dedents : Bool → Matcher E → Outcome (Bool × Matcher E)
  check_dedents bol m =
      if m.ded == 0
      then done (false, m)
      else if m.col == 0 && bol
      then (do
        tab ← resize m.tab 0 0
        done (true, record m { ded = (m.ded + size m.tab) % 2 ^ 64; tab = tab; pos = m.ind }))
      else done (false, record m { ded = m.ded - 1 })

  -- `cur_` of a match, and the length of the text.
  unfoldable pub measure_text : Matcher E → Matcher E
  measure_text m =
      let cur' = if m.cap_index == 0 then m.txt else m.cur in
      record m { cur = cur'; len = sub64 cur' m.txt }

  -- What follows for a text that is not empty, or an empty one that the automaton accepts.
  unfoldable pub accept_text : Matcher E → Outcome (Bool × Matcher E)
  unfolding matcher_set_current
  accept_text m = do
    m' ← matcher_set_current m.cur m
    done (
        if ltb 0 m'.len && m'.cap_index == const_redo && not m'.opt.any
        then (true, record m' { len = 0 })
        else (false, m'))

module _ {E : Type 0} (get : E → ℕ → List ℕ × E) (realloc : List ℕ → ℕ → List ℕ) where
  -- An empty match is rejected, at the end of the input or not.
  unfoldable pub reject_text : Matcher E → Outcome (Bool × Matcher E)
  unfolding matcher_set_current
  reject_text m = do
    (_, m₁) ← matcher_at_end get realloc (record m { pos = m.cur })
    m₂ ← matcher_set_current m₁.cur m₁
    done (false, record m₂ { cap_index = 0 })

  -- From the length of the text on: whether the scan goes on behind a text that is ignored.
  unfoldable pub finish : Matcher E → Outcome (Bool × Matcher E)
  unfolding reject_text accept_text
  finish m =
      if m.len == 0 && not m.fsm.nul
      then reject_text m
      else if m.len == 0 && m.cur == m.end
      then done (
        false,
        if m.cap_index == const_redo && not m.opt.any then record m { cap_index = 0 } else m,
      )
      else accept_text m

module _ {E : Type 0} (get : E → ℕ → List ℕ × E) (realloc : List ℕ → ℕ → List ℕ)
    (fsm : Matcher E → Outcome (Matcher E)) where
  -- From the label `redo` to the dedents: whether to go to `redo` again.
  unfoldable pub attempt_once : Bool → Matcher E → Outcome (Bool × Matcher E)
  unfolding check_stops check_dedents
  attempt_once bol m = do
    lap ← resize m.lap 0 (pos 0)
    m₁ ←
        fsm (record m { lap = lap; cap_index = 0; fsm = record (m.fsm) { bol = bol; nul = false } })
    m₂ ← check_stops m₁
    check_dedents bol m₂

  -- With `bol` false there is no third time.
  unfoldable pub attempt : Bool → Matcher E → Outcome (Matcher E)
  unfolding attempt_once
  attempt bol m = do
    (again, m₁) ← attempt_once bol m
    if again then (do (_, m₂) ← attempt_once false m₁; done m₂) else done m₁

  -- One scan, from the label to its end.
  unfoldable pub scan_once : Matcher E → Outcome (Bool × Matcher E)
  unfolding begin_scan begin_find attempt measure_text finish
  scan_once m = do
    let m₀ = begin_find (begin_scan m)
    m₁ ← attempt (matcher_at_bol m₀) m₀
    finish get realloc (measure_text m₁)

  -- `goto scan`, on fuel; `none` means that the fuel ran out.
  unfoldable pub scan_from : ℕ → Matcher E → Outcome (Option (ℕ × Matcher E))
  scan_from zero m = done none
  scan_from (suc fuel) m = scan_once m >>= λ r. elim (r.0) [
    | true ↦ scan_from fuel (r.1)
    | false ↦ done (some (r.1.cap_index, r.1))
  ]

  -- `matcher_scan`.
  unfoldable pub matcher_scan : ℕ → Matcher E → Outcome (Option (ℕ × Matcher E))
  unfolding matcher_reset_text scan_once scan_from
  matcher_scan fuel m = do m' ← matcher_reset_text m; scan_from fuel (record m' { len = 0 })
