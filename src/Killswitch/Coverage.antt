-- ===== src/Killswitch/Coverage.antt =====
-- What the messages of the killswitch are for: the requests against the open orders, and the closing
-- orders against the positions.
use hft_order_book.Base.{
  ℕ, suc, ◌*◌, ◌^◌, ◌<◌, ◌≡◌, refl, inl, inr, false, none, List, [], ◌∷◌, ◌++◌, if◌then◌else◌,
  length, take, All, arith, Bool-cases,
}
use hft_order_book.Base.Int.{ℤ, pos, neg, ◌+ℤ◌, ◌<ℤ◌, ltb_ℤ, neg_parts, int_laws}
use hft_order_book.Base.Word.{wrap32, Fits32, Fits64, wrap32_id, wrap64_id}
use hft_order_book.Base.Bytes.{Bytes, strncpy, strnlen}
use hft_order_book.Base.Decimal.{to_string}
use hft_order_book.OrderEvent.{is_buy}
use hft_order_book.OrderManager.{Order, OrderManager}
use hft_order_book.PositionTracker.{Position, PositionTracker, is_flat}
use hft_order_book.SlotTable.Lookup.{entries}
use hft_order_book.MessageTranslator.{
  Floats, OrderCancelRequest, NewOrderSingle, OrdType, SentSide, to_fix_side, fixed_string,
  to_cancel_request, to_new_order_single,
}
use hft_order_book.MessageTranslator.RoundTrip.{strncpy-fixed_string}
use hft_order_book.Killswitch.{numbered_id, order_ref, cancel_all, flat_event, as_market, flatten}
use hft_order_book.Killswitch.Loops.{
  open_orders, requests, cancel_all-requests, held_positions, closings, flatten-closings,
}

-- The n-th request asks to cancel an order: it names it by its id, up to a NUL, under the prefix and
-- `n` as its own id, and has the order's symbol and side.
pub record Cancels (prefix : Bytes) (n : ℕ) (o : Order) (r : OrderCancelRequest) : Type 0 where
  pub of_order : r.orig_cl_ord_id ≡ take (strnlen o.order_id 8) o.order_id
  pub numbered : r.cl_ord_id ≡ prefix ++ to_string n
  pub in_symbol : r.symbol ≡ take (strnlen o.symbol 8) o.symbol
  pub same_side : r.side ≡ (if is_buy o.side then SentSide.buy else SentSide.sell)

-- One request for each order, in the same order, numbered on from `count`.
abbrev pub CancelEach : Bytes → ℕ → List Order → List OrderCancelRequest → Type 0
CancelEach prefix count [] [] = Unit
CancelEach prefix count (o ∷ os) (r ∷ rs) =
    Cancels prefix (suc count) o r × CancelEach prefix (suc count) os rs
CancelEach prefix count _ _ = ⊥

requests-CancelEach :
    (prefix : Bytes) (count : ℕ) (os : List Order)
    → CancelEach prefix count os (requests prefix count os)
unfolding to_cancel_request order_ref numbered_id fixed_string
requests-CancelEach prefix count [] = tt
requests-CancelEach prefix count (o ∷ os) = (
  record { of_order = refl; numbered = refl; in_symbol = refl; same_side = refl },
  requests-CancelEach prefix (suc count) os,
)

-- Of fewer than 2^32 orders, `cancel_all` sends one request for each open order and for no other, in
-- the order of the table, and counts them. Each names its order by the order's id in OrigClOrdID, has
-- the order's symbol and side, and has the prefix with its number, from 1 on, as its own ClOrdID.
pub cancel_all-open_orders :
    (prefix : Bytes) (m : OrderManager)
    → length (entries m) < 2 ^ 32
    → ((cancel_all prefix m).0 ≡ length (open_orders (entries m)))
      × CancelEach prefix 0 (open_orders (entries m)) (cancel_all prefix m).1
cancel_all-open_orders prefix m h =
    rw (cancel_all-requests prefix m h)
      (refl, requests-CancelEach prefix 0 (open_orders (entries m)))

-- The position and its negation fit the 32 bits of an order's quantity.
abbrev pub CanClose : Position → Type 0
CanClose p = Fits32 p.net_qty × Fits32 (neg p.net_qty)

-- What an order adds to a position when it is filled whole.
abbrev pub signed : SentSide → ℤ → ℤ
signed SentSide.buy qty = qty
signed SentSide.sell qty = neg qty

-- The quantity and the side of the closing order bring the position to 0.
flat_event_closes :
    (id : Bytes) (p : Position)
    → is_flat p ≡ false
    → CanClose p
    → let e = flat_event id p in
      (pos 0 <ℤ e.qty) × (p.net_qty +ℤ signed (to_fix_side e.side) e.qty ≡ pos 0)
unfolding flat_event is_flat
flat_event_closes id p held (fits, fits_neg) = elim (Bool-cases (ltb_ℤ (pos 0) p.net_qty)) [
  | inl long ↦ rw (long, wrap32_id _ fits) (ground arith, omega int_laws)
  | inr short ↦
      rw (short, wrap64_id (neg p.net_qty) wide, wrap32_id _ fits_neg)
        (ground (arith, neg_parts p.net_qty), omega int_laws)
]
  where
    wide : Fits64 (neg p.net_qty)
    wide = omega arith

module _ (F : Floats) where
  -- The n-th order closes a position: it is a market order without a price, of a positive quantity
  -- that, on its side, brings the position to 0, in the position's symbol, under the prefix and `n`,
  -- cut to eight bytes, as its id.
  pub record Closes (prefix : Bytes) (n : ℕ) (p : Position) (r : NewOrderSingle F) : Type 0 where
    pub at_market : r.ord_type ≡ OrdType.market
    pub unpriced : r.price ≡ none
    pub in_symbol : r.symbol ≡ take (strnlen p.symbol 8) p.symbol
    pub numbered : strncpy r.cl_ord_id 8 ≡ strncpy (prefix ++ to_string n) 8
    pub qty : ℤ
    pub of_qty : r.order_qty ≡ F.of_int qty
    pub more : pos 0 <ℤ qty
    pub to_zero : p.net_qty +ℤ signed r.side qty ≡ pos 0

  -- One order for each position, in the same order, numbered on from `count`.
  abbrev pub CloseEach : Bytes → ℕ → List Position → List (NewOrderSingle F) → Type 0
  CloseEach prefix count [] [] = Unit
  CloseEach prefix count (p ∷ ps) (r ∷ rs) =
      Closes prefix (suc count) p r × CloseEach prefix (suc count) ps rs
  CloseEach prefix count _ _ = ⊥

  closing-Closes :
      (prefix : Bytes) (n : ℕ) (p : Position)
      → is_flat p ≡ false
      → CanClose p
      → Closes prefix n p
          (as_market F (to_new_order_single F (flat_event (numbered_id prefix n) p)))
  unfolding to_new_order_single flat_event numbered_id fixed_string
  closing-Closes prefix n p held fits =
      let (more, to_zero) = flat_event_closes (numbered_id prefix n) p held fits in
      record {
        at_market = refl;
        unpriced = refl;
        in_symbol = refl;
        numbered = strncpy-fixed_string (numbered_id prefix n);
        qty = (flat_event (numbered_id prefix n) p).qty;
        of_qty = refl;
        more = more;
        to_zero = to_zero;
      }

  closings-CloseEach :
      (prefix : Bytes) (count : ℕ) (ps : List Position)
      → All CanClose (held_positions ps)
      → CloseEach prefix count (held_positions ps) (closings F prefix count (held_positions ps))
  closings-CloseEach prefix count [] fits = tt
  closings-CloseEach prefix count (p ∷ ps) fits = elim (Bool-cases (is_flat p)) [
    | inl flat ↦ rw flat (closings-CloseEach prefix count ps (rw flat at fits))
    | inr held ↦
        let both : All CanClose (p ∷ held_positions ps) = rw held at fits in
        rw held (
          closing-Closes prefix (suc count) p held both.0,
          closings-CloseEach prefix (suc count) ps both.1,
        )
  ]

  -- Of fewer than 2^32 positions, whose quantities and negated quantities fit 32 bits where they are
  -- not flat, `flatten` sends one order for each that is not flat and for no other, in the order of
  -- the table, and counts them. Each is a market order without a price, in the position's symbol, whose
  -- positive quantity, on its side, brings the position to 0; its id is the prefix with its number,
  -- from 1 on, cut to eight bytes.
  pub flatten-held_positions :
      (prefix : Bytes) (t : PositionTracker)
      → length (entries t) < 2 ^ 32
      → All CanClose (held_positions (entries t))
      → ((flatten F prefix t).0 ≡ length (held_positions (entries t)))
        × CloseEach prefix 0 (held_positions (entries t)) (flatten F prefix t).1
  flatten-held_positions prefix t h fits =
      rw (flatten-closings F prefix t h) (refl, closings-CloseEach prefix 0 (entries t) fits)

-- A long position of a multiple of 2^32 shares gets a closing order for none: the cast to 32 bits
-- drops them.
pub flat_event_truncates :
    (id : Bytes) (p : Position) (k : ℕ)
    → 0 < k
    → p.net_qty ≡ pos (k * 2 ^ 32)
    → (flat_event id p).qty ≡ pos 0
unfolding flat_event wrap32
flat_event_truncates id p k h e = rw e (ground arith)
