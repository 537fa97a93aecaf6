-- ===== src/Registry/RoundRobin.antt =====
-- The round robin visits every wallet once, from the one behind the last pick on.
use cs_stratum_bridge.Base.{
  ℕ, zero, suc, ◌+◌, ◌%◌, ◌<◌, ◌==◌, ◌≡◌, refl, ◌∙◌, sym, Bool, false, Option, none, some, List, [],
  ◌∷◌, Text, text_key, length, get_elem?, drop, arith, rotation, length-rotation,
  get_elem?-rotation, rotation-nil, get_elem?-in_range, drop-step, drop_all,
}
use cs_stratum_bridge.Registry.Pick.{start_index, scan, round_robin, find}

scan-find :
    (p : Text → Bool) (ks : List Text) (s o n : ℕ)
    → s < length ks
    → o + n ≡ length ks
    → scan p ks s o n ≡ find p (drop o (rotation s ks))
unfolding scan find
scan-find p ks s o zero hs h =
    rw (drop_all o (rotation s ks) (omega (arith, length-rotation s ks hs)))
scan-find p ks s o (suc n) hs h =
    let (x, e) = get_elem?-in_range (rotation s ks) o (omega (arith, length-rotation s ks hs)) in
    let e' : get_elem? ks ((s + o) % length ks) ≡ some x =
      sym (get_elem?-rotation s o ks hs (omega arith)) ∙ e in
    rw (e', scan)
      (rw (drop-step (rotation s ks) o x e) (rw (scan-find p ks s (suc o) n hs (omega arith))))

start_index-lt :
    (last : Option Text) (ks : List Text) → 0 < length ks → start_index last ks < length ks
unfolding start_index
start_index-lt none ks h = h
start_index-lt (some w) ks h = ground arith

-- `pick_next` and `pick_draft_capable` ask every connected wallet once, in the order of connection,
-- from the one behind the last pick on and round to it again, and take the first that passes.
pub round_robin-find :
    (p : Text → Bool) (last : Option Text) (ks : List Text)
    → round_robin p last ks ≡ find p (rotation (start_index last ks) ks)
unfolding round_robin find
round_robin-find p last [] = rw (rotation-nil (start_index last [])) refl
round_robin-find p last (k ∷ ks) =
    let z : (suc (length ks) == 0) ≡ false = ground arith in
    rw z (
      scan-find p (k ∷ ks) (start_index last (k ∷ ks)) 0 (suc (length ks))
        (start_index-lt last (k ∷ ks) (omega arith)) (omega arith))
