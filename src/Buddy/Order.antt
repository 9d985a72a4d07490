-- ===== src/Buddy/Order.antt =====
-- `get_buddy_order`: the smallest order whose blocks hold the request.
use xanadu_os.Base.{ℕ, zero, suc, ◌-◌, ◌^◌, ◌≤◌, ◌<◌, arith}
use xanadu_os.Buddy.{get_buddy_order}

-- A request of up to 1024 frames gets an order from 0 to 10 whose block holds it; a block of the
-- order below would be too small.
pub get_buddy_order_least :
    (nframes : ℕ)
    → nframes ≤ 1024
    → (get_buddy_order nframes ≤ 10)
      × (nframes ≤ 2 ^ get_buddy_order nframes)
      × (0 < get_buddy_order nframes → 2 ^ (get_buddy_order nframes - 1) < nframes)
unfolding get_buddy_order
get_buddy_order_least nframes h = ground arith

pub get_buddy_order-le : (nframes : ℕ) → get_buddy_order nframes ≤ 10
unfolding get_buddy_order
get_buddy_order-le nframes = ground arith

-- A statement about the orders 0 to 10 holds if it holds of each.
pub each_order {ℓ} :
    (P : ℕ → Type ℓ)
    → P 0 × P 1 × P 2 × P 3 × P 4 × P 5 × P 6 × P 7 × P 8 × P 9 × P 10
    → (order : ℕ) → order ≤ 10
    → P order
each_order P p zero h = p.0
each_order P p (suc zero) h = p.1
each_order P p (suc (suc zero)) h = p.2
each_order P p (suc (suc (suc zero))) h = p.3
each_order P p (suc (suc (suc (suc zero)))) h = p.4
each_order P p (suc (suc (suc (suc (suc zero))))) h = p.5
each_order P p (suc (suc (suc (suc (suc (suc zero)))))) h = p.6
each_order P p (suc (suc (suc (suc (suc (suc (suc zero))))))) h = p.7
each_order P p (suc (suc (suc (suc (suc (suc (suc (suc zero)))))))) h = p.8
each_order P p (suc (suc (suc (suc (suc (suc (suc (suc (suc zero))))))))) h = p.9
each_order P p (suc (suc (suc (suc (suc (suc (suc (suc (suc (suc zero)))))))))) h = p.10
each_order P p (suc (suc (suc (suc (suc (suc (suc (suc (suc (suc (suc n))))))))))) h =
    absurd (omega arith)
