-- ===== src/Buddy/Free.antt =====
-- `buddy_coalesce`: which block a release puts into a free list.
use mathlib.Core.Path.{subst}
use mathlib.Core.Option.{some-injective}
use xanadu_os.Base.{
  ℕ, zero, suc, ◌+◌, ◌-◌, ◌≤◌, ◌<◌, ◌≡◌, refl, some, List, ◌∷◌, inl, inr, arith, Bool-cases,
  Option-cases,
}
use xanadu_os.Buddy.{
  Buddy, set_frame_unused, insert_buddy, remove_free_frame, is_frame_free, coalesce_loop,
  buddy_coalesce, addr_to_map_id, map_to_addr, map_word, buddy_frame,
}
use xanadu_os.Buddy.Slice.{insert_buddy-pushed}

remove_free_frame-nodes :
    (b : Buddy) (o addr : ℕ) {b' : Buddy}
    → remove_free_frame b o addr ≡ some b'
    → b.nodes ≤ b'.nodes
unfolding remove_free_frame
remove_free_frame-nodes b o addr e = ground arith

set_frame_unused-nodes : (b : Buddy) (o addr : ℕ) → (set_frame_unused b o addr).nodes ≡ b.nodes
unfolding set_frame_unused
set_frame_unused-nodes b o addr = refl

-- The list of some order from `lo` to `hi` begins with `addr`.
pub record Holds (lo hi addr : ℕ) (b : Buddy) : Type 0 where
  pub order : ℕ
  pub rest : List ℕ
  pub at_least : lo ≤ order
  pub at_most : order ≤ hi
  pub begins : b.lists order ≡ addr ∷ rest

inserted :
    (b : Buddy) (order hi addr : ℕ)
    → order ≤ hi
    → 0 < b.nodes
    → Holds order hi addr (insert_buddy (set_frame_unused b order addr) order addr).0
inserted b order hi addr h n =
    let c = set_frame_unused b order addr in
    let node : 0 < c.nodes = omega (arith, set_frame_unused-nodes b order addr) in
    rw (insert_buddy-pushed c order addr node) (record {
      order = order;
      rest = c.lists order;
      at_least = omega arith;
      at_most = h;
      begins = ground arith;
    })

coalesce_loop-Holds :
    (rounds order hi : ℕ) (b : Buddy) (addr : ℕ) {b' : Buddy}
    → order + rounds ≡ hi
    → 0 < b.nodes
    → coalesce_loop rounds order b addr ≡ some b'
    → Holds order hi addr b'
unfolding coalesce_loop
coalesce_loop-Holds zero order hi b addr e n run =
    subst (λ x. Holds order hi addr x) (some-injective _ _ run)
      (inserted b order hi addr (omega arith) n)
coalesce_loop-Holds (suc k) order hi b addr {b'} e n run =
    let c = set_frame_unused b order addr in
    let map = addr_to_map_id order addr in
    elim (Bool-cases (is_frame_free (map_word c order map.frame_map) (buddy_frame map.frame))) [
      | inl mate ↦
          elim (Option-cases (
            remove_free_frame c order
              (map_to_addr order (record map { frame = buddy_frame map.frame })))) [
                | inl fault ↦ cc (rw (mate, fault) at run)
                | inr (d, ok) ↦
                    let h =
                      coalesce_loop-Holds k (order + 1) hi d addr (omega arith)
                        (omega (
                          arith,
                          remove_free_frame-nodes c order
                              (map_to_addr order (record map { frame = buddy_frame map.frame })) ok,
                          set_frame_unused-nodes b order addr,
                        ))
                        (rw (mate, ok) at run) in
                    record {
                      order = h.order;
                      rest = h.rest;
                      at_least = omega (arith, h.at_least);
                      at_most = h.at_most;
                      begins = h.begins;
                    }
              ]
      | inr alone ↦
          subst (λ x. Holds order hi addr x) (some-injective _ _ (rw alone at run))
            (inserted b order hi addr (omega arith) n)
    ]

-- A release that ends, with a node left in the slab cache, puts a block that begins at the released
-- address into the list of some order from its own to 10.
pub buddy_coalesce-Holds :
    (b : Buddy) (order addr : ℕ) {b' : Buddy}
    → order ≤ 10
    → 0 < b.nodes
    → buddy_coalesce b order addr ≡ some b'
    → Holds order 10 addr b'
unfolding buddy_coalesce
buddy_coalesce-Holds b order addr h n run =
    coalesce_loop-Holds (10 - order) order 10 b addr (omega arith) n run
