-- ===== src/Lexer/Matcher/Bytes.antt =====
-- Where the source reads memory with another type than it has: the `int`s of a lookahead in
-- `FSM_TAIL`.
use neoast.Common.{
  ℕ, suc, ◌+◌, ◌-◌, ◌*◌, ◌%◌, ◌^◌, ◌≤◌, ◌<◌, ◌≡◌, refl, true, false, some, get_elem?, set,
}
use neoast.Common.{ltb, leb, ℤ, to_u32, arith, ap, ◌∙◌, done, ◌>>=◌}
use neoast.Common.{write_lem, get_elem?-set_self, get_elem?-set_ne, get_elem?-lt, sub64, sub64_le}
use neoast.Lexer.Vector.{size}
use neoast.Lexer.Matcher.{Matcher}
use neoast.Lexer.Matcher.Fsm.{as_int, fsm_posn, fsm_head, fsm_tail, lap_at, lap_high}

as_int-small : (n : ℕ) → n < 2 ^ 31 → to_u32 (as_int n) ≡ n
as_int-small n small =
    let e : n % 2 ^ 32 ≡ n = omega (arith, small) in
    let test : ltb n (2 ^ 31) ≡ true = ground (arith, small) in rw (e, test) e

module _ {E : Type 0} where
  fsm_head_computes :
      (m : Matcher E) (la : ℕ)
      → la < size m.lap
      → fsm_head la m
        ≡ done
            (record m { lap = record (m.lap) { items = set m.lap.items la (as_int (fsm_posn m)) } })
  unfolding fsm_head
  fsm_head_computes m la inside =
      let test : leb (size m.lap) la ≡ false = ground (arith, inside) in
      rw (test, write_lem m.lap.items la (as_int (fsm_posn m)) inside) refl

  fsm_tail_computes :
      (m : Matcher E) (beyond la : ℕ) (low high : ℤ)
      → get_elem? m.lap.items la ≡ some low
      → get_elem? m.lap.items (suc la) ≡ some high
      → fsm_tail beyond la m
        ≡ done (record m { cur = (m.txt + (to_u32 low + 2 ^ 32 * to_u32 high)) % 2 ^ 64 })
  unfolding fsm_tail lap_at lap_high
  fsm_tail_computes m beyond la low high e e' =
      let test : ltb la (size m.lap) ≡ true = ground (arith, get_elem?-lt m.lap.items la e) in
      let test' : ltb (suc la) (size m.lap) ≡ true =
        ground (arith, get_elem?-lt m.lap.items (suc la) e') in
      rw (test, e, test', e') refl

  -- After `FSM_HEAD` has kept `pos_`, at or behind the text and below 2³¹, for a lookahead that is not
  -- the last of the vector, `FSM_TAIL` sets `cur_` not to it, but 2³² times the next item, as 32 bits,
  -- behind it, modulo 2⁶⁴.
  pub fsm_tail-fsm_head :
      (m : Matcher E) (beyond la : ℕ) (next : ℤ)
      → m.txt ≤ m.pos
      → m.pos < 2 ^ 31
      → get_elem? m.lap.items (suc la) ≡ some next
      → (m' : Matcher E) × ((fsm_head la m >>= fsm_tail beyond la) ≡ done m')
        × (m'.cur ≡ (m.pos + 2 ^ 32 * to_u32 next) % 2 ^ 64)
  unfolding fsm_posn
  fsm_tail-fsm_head m beyond la next le small behind =
      let inside : la < size m.lap = omega (arith, get_elem?-lt m.lap.items (suc la) behind) in
      let at : sub64 m.pos m.txt ≡ m.pos - m.txt = sub64_le m.pos m.txt le (omega (arith, small)) in
      let low : to_u32 (as_int (sub64 m.pos m.txt)) ≡ m.pos - m.txt =
        as_int-small (sub64 m.pos m.txt) (omega (arith, at, small)) ∙ at in
      (
        record m {
          cur = (m.txt + (to_u32 (as_int (fsm_posn m)) + 2 ^ 32 * to_u32 next)) % 2 ^ 64;
          lap = record (m.lap) { items = set m.lap.items la (as_int (fsm_posn m)) };
        },
        ap (λ o. o >>= fsm_tail beyond la) (fsm_head_computes m la inside)
            ∙ fsm_tail_computes
                (record m {
                  lap = record (m.lap) { items = set m.lap.items la (as_int (fsm_posn m)) };
                })
                beyond la (as_int (fsm_posn m)) next
                (get_elem?-set_self m.lap.items la (as_int (fsm_posn m)) inside)
                (get_elem?-set_ne m.lap.items la (suc la) (as_int (fsm_posn m)) (omega arith)
                  ∙ behind),
        omega (arith, low, le),
      )
