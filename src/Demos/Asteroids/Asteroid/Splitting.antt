-- ===== src/Demos/Asteroids/Asteroid/Splitting.antt =====
-- What an asteroid asks for in its life.
use enki_net.Common.{
  ℕ, suc, ◌+◌, ◌≡◌, refl, ◌∙◌, Bool, true, false, ◌&&◌, List, [], ◌∷◌, ◌++◌, Option, if◌then◌else◌,
  Outcome, ok, ◌>>=◌, Bool-cases, inl, inr, arith,
}
use enki_net.Entity.{is_owner}
use enki_net.Demos.Scalar.{Scalar, Request, creation, deletion, local_creation, call}
use enki_net.Demos.Asteroids.{Size}
use enki_net.Demos.Asteroids.Asteroid.{
  Asteroid, Rands, asteroid_type, update, can_split, split, handle_collision,
}
use enki_net.Demos.Asteroids.Asteroid.Spawning.{split_packet-Writes}

-- What happens to an asteroid: a frame, of some length, in a window of some size, or a collision.
pub data Event (F : Type 0) : Type 0 where
  frame : Size F → F → Event F
  collision : Rands → Rands → Event F

abbrev pub creations : List Request → ℕ
creations [] = 0
creations (creation type name owner p ∷ rs) = suc (creations rs)
creations (deletion id ∷ rs) = creations rs
creations (local_creation type name ∷ rs) = creations rs
creations (call name args ∷ rs) = creations rs

abbrev pub collides : {F : Type 0} → List (Event F) → Bool
collides [] = false
collides (frame view dt ∷ es) = collides es
collides (collision r s ∷ es) = true

pub creations-append : (rs ss : List Request) → creations (rs ++ ss) ≡ creations rs + creations ss
creations-append [] ss = omega arith
creations-append (creation type name owner p ∷ rs) ss = omega (arith, creations-append rs ss)
creations-append (deletion id ∷ rs) ss = creations-append rs ss
creations-append (local_creation type name ∷ rs) ss = creations-append rs ss
creations-append (call name args ∷ rs) ss = creations-append rs ss

module _ {F : Type 0} (ops : Scalar F) (client : Option ℕ) where
  -- The asteroid and its requests after the events.
  unfoldable pub live : List (Event F) → Asteroid F → Outcome (Asteroid F × List Request)
  unfolding update handle_collision
  live [] a = ok (a, [])
  live (frame view dt ∷ es) a =
      let (b, asked) = update ops client view dt a in
      live es b >>= λ (c, more). ok (c, asked ++ more)
  live (collision r s ∷ es) a = do
    (b, asked) ← handle_collision ops client r s a
    (c, more) ← live es b
    ok (c, asked ++ more)

  -- An asteroid of the same owner, shape and liveness.
  record Alike (a b : Asteroid F) : Type 0 where
    pub same_info : b.info ≡ a.info
    pub same_count : b.point_count ≡ a.point_count
    pub same_alive : b.alive ≡ a.alive

  -- What the events come to: an asteroid that can split is split once, by its owner.
  abbrev pub due : List (Event F) → Asteroid F → ℕ
  due es a = if is_owner client a.info && a.alive && collides es && can_split ops a then 2 else 0

  pub split-run :
      (r s : Rands) (a : Asteroid F)
      → (sent : List Request) × (split ops r s a ≡ ok (record a { alive = false }, sent))
        × (creations sent ≡ (if can_split ops a then 2 else 0))
  unfolding split
  split-run r s a =
      let p = split_packet-Writes ops r a in
      let q = split_packet-Writes ops s a in
      elim (Bool-cases (can_split ops a)) [
        | inl can ↦ (
          creation asteroid_type asteroid_type 0 p.0
              ∷ creation asteroid_type asteroid_type 0 q.0
              ∷ deletion a.info.id
              ∷ [],
          rw (can, p.1, q.1) refl,
          rw can refl,
        )
        | inr cannot ↦ (deletion a.info.id ∷ [], rw cannot refl, rw cannot refl)
      ]

  update-none :
      (view : Size F) (dt : F) (a : Asteroid F) → creations (update ops client view dt a).1 ≡ 0
  unfolding update
  update-none view dt a = ground arith

  update-Alike : (view : Size F) (dt : F) (a : Asteroid F) → Alike a (update ops client view dt a).0
  unfolding update
  update-Alike view dt a = elim (Bool-cases (is_owner client a.info)) [
    | inl own ↦ record {
      same_info = rw own refl;
      same_count = rw own refl;
      same_alive = rw own refl;
    }
    | inr other ↦ record {
      same_info = rw other refl;
      same_count = rw other refl;
      same_alive = rw other refl;
    }
  ]

  due-Alike : (es : List (Event F)) (a b : Asteroid F) → Alike a b → due es b ≡ due es a
  unfolding can_split
  due-Alike es a b alike = rw (alike.same_info, alike.same_count, alike.same_alive) refl

  nothing : (own alive can : Bool) → creations [] ≡ (if own && alive && false && can then 2 else 0)
  nothing own alive can = ground arith

  dead_due : (es : List (Event F)) (a : Asteroid F) → a.alive ≡ false → due es a ≡ 0
  dead_due es a dead = rw dead (ground arith)

  pub same_can : (a : Asteroid F) → can_split ops (record a { alive = false }) ≡ can_split ops a
  unfolding can_split
  same_can a = refl

  pub unmoved :
      (r s : Rands) (a : Asteroid F)
      → is_owner client a.info && a.alive ≡ false
      → handle_collision ops client r s a ≡ ok (a, [])
  unfolding handle_collision
  unmoved r s a h = elim (Bool-cases (is_owner client a.info)) [
    | inr other ↦ rw other refl
    | inl own ↦ let dead : a.alive ≡ false = rw own at h in rw (own, dead) refl
  ]

  pub hit_lem :
      (r s : Rands) (a : Asteroid F)
      → is_owner client a.info && a.alive ≡ true
      → handle_collision ops client r s a ≡ split ops r s (record a { alive = false })
  unfolding handle_collision
  hit_lem r s a h =
      let own : is_owner client a.info ≡ true = both (is_owner client a.info) a.alive h in
      let alive : a.alive ≡ true = rw own at h in rw (own, alive) refl
    where
      both : (x y : Bool) → x && y ≡ true → x ≡ true
      both x y e = ground (arith, e)

  -- Whatever frames an asteroid lives through and whatever collisions it has, in any order, the code returns, and what
  -- it asks of the scenegraph in all creates two asteroids, if there is a collision at all, and the asteroid is the
  -- client's, was alive at the start and can split, and else none.
  pub live-creations :
      (es : List (Event F)) (a : Asteroid F)
      → (b : Asteroid F) × (sent : List Request) × (live es a ≡ ok (b, sent))
        × (creations sent ≡ due es a)
  unfolding live
  live-creations [] a = (a, [], refl, nothing (is_owner client a.info) a.alive (can_split ops a))
  live-creations (frame view dt ∷ es) a =
      let b = (update ops client view dt a).0 in
      let asked = (update ops client view dt a).1 in
      let (c, more, run, count) = live-creations es b in
      (
        c,
        asked ++ more,
        rw run refl,
        creations-append asked more
            ∙ omega
                (arith, count, update-none view dt a, due-Alike es a b (update-Alike view dt a)),
      )
  live-creations (collision r s ∷ es) a =
      let hit : Asteroid F = record a { alive = false } in
      let (sent, splits, made) = split-run r s hit in
      let (c, more, run, count) = live-creations es hit in
      let total : creations sent + creations more ≡ (if can_split ops hit then 2 else 0) =
        omega (arith, made, count, dead_due es hit refl) in
      let (c', more', run', count') = live-creations es a in
      elim (Bool-cases (is_owner client a.info && a.alive)) [
        | inr h ↦ (c', more', rw (unmoved r s a h, run') refl, count' ∙ rw h refl)
        | inl h ↦ (
          c,
          sent ++ more,
          rw (hit_lem r s a h, splits, run) refl,
          creations-append sent more ∙ total ∙ rw (h, same_can a) refl,
        )
      ]
