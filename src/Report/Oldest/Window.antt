-- ===== src/Report/Oldest/Window.antt =====
-- internal/report/txn.go: the oldest transaction id, among ids that wrap around.
use kbdiag.Prelude.{
  ℕ, ◌+◌, ◌-◌, ◌%◌, ltb, leb, ◌==◌, Bool, true, false, List, [], ◌∷◌, ◌&&◌, ◌||◌, any, all, ◌≡◌,
  arith, if◌then◌else◌,
}
use kbdiag.Report.Oldest.{Holder, older_xid, oldest_from}

-- How far an id is after `base`, counting on from 2^32 - 1 to 0.
abbrev pub distance : ℕ → ℕ → ℕ
distance base x = (x + (4294967296 - base)) % 4294967296

-- An id of 32 bits, less than 2^31 after `base`.
abbrev pub is_live : ℕ → ℕ → Bool
is_live base x = ltb x 4294967296 && ltb (distance base x) 2147483648

older_xid-distance :
    (base a b : ℕ)
    → leb base 4294967295 ≡ true
    → is_live base a ≡ true
    → is_live base b ≡ true
    → older_xid a b ≡ ltb (distance base a) (distance base b)
unfolding older_xid
older_xid-distance base a b h k l = ground (arith, h, k, l)

-- `o` is as near to `base` as each of the holders' ids.
abbrev pub is_least : ℕ → ℕ → List Holder → Bool
is_least base o hs = all (λ h. leb (distance base o) (distance base h.xid)) hs

abbrev is_found : ℕ → ℕ → ℕ → List Holder → Bool
is_found base start o hs =
    leb (distance base o) (distance base start)
    && is_least base o hs
    && (o == start || any (λ h. h.xid == o) hs)

is_found-step :
    (base o r : ℕ) (h : Holder) (hs : List Holder) (older : Bool)
    → older ≡ ltb (distance base h.xid) (distance base o)
    → is_found base (if older then h.xid else o) r hs ≡ true
    → is_found base o r (h ∷ hs) ≡ true
is_found-step base o r h hs true e k = ground (arith, e, k)
is_found-step base o r h hs false e k = ground (arith, e, k)

live_if :
    (base : ℕ) (older : Bool) (a b : ℕ)
    → is_live base a ≡ true
    → is_live base b ≡ true
    → is_live base (if older then a else b) ≡ true
live_if base true a b k l = k
live_if base false a b k l = l

oldest_from-found :
    (base o : ℕ) (hs : List Holder)
    → leb base 4294967295 ≡ true
    → is_live base o ≡ true
    → all (λ h. is_live base h.xid) hs ≡ true
    → is_found base o (oldest_from o hs) hs ≡ true
unfolding oldest_from
oldest_from-found base o [] b l k = ground (arith, l)
oldest_from-found base o (h ∷ hs) b l k =
    is_found-step base o _ h hs (older_xid h.xid o)
      (older_xid-distance base h.xid o b (ground (arith, k)) l)
      (oldest_from-found base (if older_xid h.xid o then h.xid else o) hs b
        (live_if base (older_xid h.xid o) h.xid o (ground (arith, k)) l) (ground (arith, k)))

-- The oldest transaction id that `kbdiag txn` names is the id of one of the holders, and no holder
-- has an older one, also where the ids wrap around at 2^32: when every id is less than 2^31 after
-- some 32-bit id `base`, the one named is the nearest after `base`.
pub oldest_from-least :
    (base : ℕ) (h : Holder) (hs : List Holder)
    → leb base 4294967295 ≡ true
    → all (λ x. is_live base x.xid) (h ∷ hs) ≡ true
    → (is_least base (oldest_from h.xid hs) (h ∷ hs) ≡ true)
      × (any (λ x. x.xid == oldest_from h.xid hs) (h ∷ hs) ≡ true)
oldest_from-least base h hs b l =
    let found = oldest_from-found base h.xid hs b (ground (arith, l)) (ground (arith, l)) in
    (ground (arith, found), ground (arith, found))
