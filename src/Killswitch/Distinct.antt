-- ===== src/Killswitch/Distinct.antt =====
-- The ids of the requests of one `cancel_all`.
use hft_order_book.Base.{
  ℕ, suc, ◌^◌, ◌≤◌, ◌<◌, ◌≡◌, ◌≢◌, List, [], ◌∷◌, All, append_cancel, length, arith,
}
use hft_order_book.Base.Bytes.{Bytes}
use hft_order_book.Base.Decimal.{to_string, to_string-injective}
use hft_order_book.SlotTable.Lookup.{entries}
use hft_order_book.OrderManager.{Order, OrderManager}
use hft_order_book.MessageTranslator.{OrderCancelRequest, to_cancel_request}
use hft_order_book.Killswitch.{numbered_id, cancel_all}
use hft_order_book.Killswitch.Loops.{open_orders, requests, cancel_all-requests}

numbered_id-injective :
    (prefix : Bytes) (m n : ℕ) → numbered_id prefix m ≡ numbered_id prefix n → m ≡ n
unfolding numbered_id
numbered_id-injective prefix m n h =
    to_string-injective m n (append_cancel prefix (to_string m) (to_string n) h)

-- No two requests of the list have one id.
abbrev pub DistinctIds : List OrderCancelRequest → Type 0
DistinctIds [] = Unit
DistinctIds (r ∷ rs) =
    All (λ (s : OrderCancelRequest). s.cl_ord_id ≢ r.cl_ord_id) rs × DistinctIds rs

-- Requests that are numbered on from `count` have none of the ids before.
requests_fresh :
    (prefix : Bytes) (k count : ℕ) (os : List Order)
    → k ≤ count
    → All
        (λ (r : OrderCancelRequest). r.cl_ord_id ≢ numbered_id prefix k)
        (requests prefix count os)
unfolding to_cancel_request
requests_fresh prefix k count [] h = tt
requests_fresh prefix k count (o ∷ os) h = (
  λ same. omega (arith, numbered_id-injective prefix (suc count) k same),
  requests_fresh prefix k (suc count) os (omega arith),
)

requests-DistinctIds :
    (prefix : Bytes) (count : ℕ) (os : List Order) → DistinctIds (requests prefix count os)
unfolding to_cancel_request
requests-DistinctIds prefix count [] = tt
requests-DistinctIds prefix count (o ∷ os) = (
  requests_fresh prefix (suc count) (suc count) os (omega arith),
  requests-DistinctIds prefix (suc count) os,
)

-- Of fewer than 2^32 orders, no two requests that one `cancel_all` sends have the same ClOrdID.
pub cancel_all-DistinctIds :
    (prefix : Bytes) (m : OrderManager)
    → length (entries m) < 2 ^ 32
    → DistinctIds (cancel_all prefix m).1
cancel_all-DistinctIds prefix m h =
    rw (cancel_all-requests prefix m h) (requests-DistinctIds prefix 0 (open_orders (entries m)))
