-- ===== src/Liquidity/Unspent.antt =====
-- liquidity.py: `unmoved_window` of `liquidity_series`, and the outputs that no later input has spent.
mod Entries
use Entries.{
  IsUnique, left, left_nil, left-pop_rest, left-set_value, pop_rest-IsUnique, set_value-IsUnique,
}
use coinjoin_pipeline.Base.{
  ℕ, zero, suc, ◌+◌, ◌≡◌, refl, ap, ◌∙◌, String, Bool, true, false, List, [], ◌∷◌, take, arith,
  Option, none, some, string_equality, ◌||◌, ◌&&◌, not, get_elem?, contains, IsDistinct, ℤ, pos,
  ltb_ℤ, if◌then◌else◌, Bool-cases, inl, inr, contains-head, ≢→==, Option-cases,
}
use coinjoin_pipeline.Liquidity.Classify.{Outpoint, outpoint_eq, outpoint}
use coinjoin_pipeline.Liquidity.Records.{MixEvent, Coinjoin, InputItem, OutputItem}
use coinjoin_pipeline.Liquidity.Series.{
  EventField, output_field, Point, Totals, Unmoved, series_step, series_from, liquidity_series,
  empty_totals, owned_inputs, owned_outputs, is_owned, retire, retire_one, deposit, deposit_one,
  waits, value_of, is_fast, is_event,
}
use coinjoin_pipeline.Liquidity.Outstanding.{
  has_key, IsAccounted, IsFresh, has_key-set, created, all_created, outstanding, series_step-kept,
  later-IsDistinct, retire-IsFresh,
}

-- A wallet is of the owners, and without owners any is.
abbrev pub belongs : Option (List String) → Option String → Bool
belongs none wallet = true
belongs (some owners) none = false
belongs (some owners) (some wallet) = contains wallet owners

-- An output stays in the mix or is remixed, and not within three coinjoins.
abbrev pub is_slow_event : Option MixEvent → Bool
is_slow_event (some MixEvent.stay) = true
is_slow_event (some MixEvent.remix) = true
is_slow_event _ = false

abbrev pub is_late : Option ℤ → Bool
is_late none = true
is_late (some distance) = not (ltb_ℤ distance (pos 3))

abbrev pub is_slow : EventField → OutputItem → Bool
is_slow field item =
    is_slow_event (output_field field item) && is_late item.spend_distance_coinjoins

abbrev pub spent_by : Option Outpoint → List Outpoint → List Outpoint
spent_by none spent = spent
spent_by (some key) spent = key ∷ spent

-- The outpoints that inputs of the owners spend.
unfoldable pub spends : Option (List String) → List InputItem → List Outpoint → List Outpoint
spends owners [] spent = spent
spends owners (item ∷ items) spent =
    let rest = spends owners items spent in
    if belongs owners item.wallet
    then spent_by (outpoint item.prev_txid item.prev_vout) rest
    else rest

unfoldable pub all_spent : Option (List String) → List Coinjoin → List Outpoint
all_spent owners [] = []
all_spent owners (c ∷ cs) = spends owners c.inputs (all_spent owners cs)

-- The values of the owners' slow outputs that are not spent.
unfoldable pub open_value :
    EventField → Option (List String) → List Outpoint → String → List OutputItem → ℕ
open_value field owners spent txid [] = 0
open_value field owners spent txid (item ∷ items) =
    let rest = open_value field owners spent txid items in
    if belongs owners item.wallet && (is_slow field item && not (contains (txid, item.index) spent))
    then value_of item.value + rest
    else rest

-- Of all coinjoins: an output counts until an input of a later one spends it.
unfoldable pub unspent : EventField → Option (List String) → List Coinjoin → ℕ
unspent field owners [] = 0
unspent field owners (c ∷ cs) =
    open_value field owners (all_spent owners cs) c.txid c.outputs + unspent field owners cs

retire_one-left :
    (key : Option Outpoint) (spent : List Outpoint) (o : ℤ × Unmoved)
    → IsUnique o.1
    → (left spent (retire_one key o).1 ≡ left (spent_by key spent) o.1)
      × IsUnique (retire_one key o).1
unfolding retire_one
retire_one-left none spent (current, u) d = (refl, d)
retire_one-left (some key) spent (current, u) d =
    (left-pop_rest key spent u d, pop_rest-IsUnique key u d)

belongs-owned :
    (owners : Option (List String)) (wallet : Option String)
    → is_owned owners wallet ≡ belongs owners wallet
unfolding is_owned
belongs-owned none wallet = refl
belongs-owned (some owners) none = refl
belongs-owned (some owners) (some wallet) = refl

retire-left :
    (owners : Option (List String)) (items : List InputItem) (spent : List Outpoint)
    (o : ℤ × Unmoved)
    → IsUnique o.1
    → (left spent (retire (owned_inputs owners items) o).1 ≡ left (spends owners items spent) o.1)
      × IsUnique (retire (owned_inputs owners items) o).1
unfolding retire owned_inputs spends
retire-left owners [] spent o d = (refl, d)
retire-left owners (item ∷ items) spent o d =
    let same = belongs-owned owners item.wallet in
    elim (Bool-cases (belongs owners item.wallet)) [
      | inl y ↦
          let key = outpoint item.prev_txid item.prev_vout in
          let (first, unique) = retire_one-left key (spends owners items spent) o d in
          let (rest, kept) = retire-left owners items spent (retire_one key o) unique in
          rw (same, y, owned_inputs, spends) (rest ∙ first, kept)
      | inr n ↦ rw (same, n, owned_inputs, spends) (retire-left owners items spent o d)
    ]

slow_event :
    (event : Option MixEvent)
    → (is_event event MixEvent.stay || is_event event MixEvent.remix) ≡ is_slow_event event
slow_event none = refl
slow_event (some MixEvent.enter) = refl
slow_event (some MixEvent.remix) = refl
slow_event (some MixEvent.leave) = refl
slow_event (some MixEvent.stay) = refl
slow_event (some MixEvent.remix_friends) = refl
slow_event (some MixEvent.remix_friends_ww1) = refl

late_item : (item : OutputItem) → not (is_fast item) ≡ is_late item.spend_distance_coinjoins
unfolding is_fast
late_item item = elim (Option-cases item.spend_distance_coinjoins) [
  | inl e ↦ rw (e, is_fast) refl
  | inr (n, e) ↦ rw (e, is_fast) refl
]

waits-is_slow : (field : EventField) (item : OutputItem) → waits field item ≡ is_slow field item
unfolding waits
waits-is_slow field item = rw (slow_event (output_field field item), late_item item) refl

deposit_one-left :
    (on : Bool) (key : Outpoint) (value : ℕ) (spent : List Outpoint) (o : ℤ × Unmoved)
    → has_key key o.1 ≡ false
    → IsUnique o.1
    → (left spent (deposit_one on key value o).1
        ≡ (if on && not (contains key spent) then value else 0) + left spent o.1)
      × IsUnique (deposit_one on key value o).1
unfolding deposit_one
deposit_one-left false key value spent o h d = (omega arith, d)
deposit_one-left true key value spent (current, u) h d =
    (ground (arith, left-set_value key value spent u h), set_value-IsUnique key value u h d)

deposit_one-IsFresh :
    (keys : List Outpoint) (on : Bool) (key : Outpoint) (value : ℕ) (o : ℤ × Unmoved)
    → contains key keys ≡ false
    → IsFresh keys o.1
    → IsFresh keys (deposit_one on key value o).1
unfolding deposit_one
deposit_one-IsFresh keys false key value o n f = f
deposit_one-IsFresh keys true key value (current, u) n f =
    λ k m. has_key-set key k value u (≢→== k key (λ e. cc (n, m, e))) (f k m)

deposit-left :
    (field : EventField) (owners : Option (List String)) (spent : List Outpoint) (txid : String)
    (items : List OutputItem) (later : List Outpoint) (o : ℤ × Unmoved)
    → IsDistinct (created txid items later)
    → IsFresh (created txid items later) o.1
    → IsUnique o.1
    → (left spent (deposit field txid (owned_outputs owners items) o).1
        ≡ open_value field owners spent txid items + left spent o.1)
      × IsUnique (deposit field txid (owned_outputs owners items) o).1
unfolding deposit owned_outputs open_value created contains
deposit-left field owners spent txid [] later o d f u = (omega arith, u)
deposit-left field owners spent txid (item ∷ items) later o d f u =
    let same = belongs-owned owners item.wallet in
    let keys = created txid items later in
    let fresh : IsFresh keys o.1 = λ k m. f k (ground arith) in
    elim (Bool-cases (belongs owners item.wallet)) [
      | inl y ↦
          let key : Outpoint = (txid, item.index) in
          let on = waits field item in
          let value = value_of item.value in
          let (first, unique) =
            deposit_one-left on key value spent o (f key (contains-head key keys)) u in
          let (rest, kept) =
            deposit-left field owners spent txid items later (deposit_one on key value o) d.1
              (deposit_one-IsFresh keys on key value o d.0 fresh) unique in
          rw (same, y, owned_outputs, open_value)
            (ground (arith, first, rest, waits-is_slow field item), kept)
      | inr n ↦
          rw (same, n, owned_outputs, open_value)
            (deposit-left field owners spent txid items later o d.1 fresh u)
    ]

module _ (field : EventField) (owners : Option (List String)) where
  step-left :
      (totals : Totals) (c : Coinjoin) (cs : List Coinjoin) (spent : List Outpoint)
      → IsDistinct (all_created (c ∷ cs))
      → IsFresh (all_created (c ∷ cs)) totals.unmoved
      → IsUnique totals.unmoved
      → (left spent (series_step field owners totals c).0.unmoved
          ≡ open_value field owners spent c.txid c.outputs
            + left (spends owners c.inputs spent) totals.unmoved)
        × IsUnique (series_step field owners totals c).0.unmoved
  unfolding series_step all_created
  step-left totals c cs spent d f u =
      let o : ℤ × Unmoved = (totals.current_unmoved, totals.unmoved) in
      let (taken, unique) = retire-left owners c.inputs spent o u in
      let retired = retire (owned_inputs owners c.inputs) o in
      let fresh = retire-IsFresh (all_created (c ∷ cs)) (owned_inputs owners c.inputs) o f in
      let (added, kept) =
        deposit-left field owners spent c.txid c.outputs (all_created cs) retired d fresh unique in
      (omega (arith, taken, added), kept)

  series_from-unspent :
      (totals : Totals) (cs : List Coinjoin) (i : ℕ) (p : Point)
      → IsDistinct (all_created cs)
      → IsAccounted (outstanding field owners totals)
      → IsFresh (all_created cs) totals.unmoved
      → IsUnique totals.unmoved
      → get_elem? (series_from field owners totals cs) i ≡ some p
      → p.unmoved_window
        ≡ pos (
            unspent field owners (take (suc i) cs)
            + left (all_spent owners (take (suc i) cs)) totals.unmoved)
  unfolding series_from all_created series_step unspent all_spent
  series_from-unspent totals [] i p d h f u e = cc e
  series_from-unspent totals (c ∷ cs) zero p d h f u e =
      let (kept, _) = series_step-kept field owners totals c cs d h f in
      let (step, _) = step-left totals c cs [] d f u in
      let first : p.unmoved_window ≡ (series_step field owners totals c).0.current_unmoved = cc e in
      first
      ∙ kept
      ∙ ap pos (omega (arith, step, left_nil (series_step field owners totals c).0.unmoved))
  series_from-unspent totals (c ∷ cs) (suc i) p d h f u e =
      let (kept, fresh) = series_step-kept field owners totals c cs d h f in
      let (step, unique) = step-left totals c cs (all_spent owners (take (suc i) cs)) d f u in
      series_from-unspent (series_step field owners totals c).0 cs i p
        (later-IsDistinct c.txid c.outputs (all_created cs) d) kept fresh unique e
      ∙ ap pos (omega (arith, step))

  -- If no two outputs of the coinjoins have the same outpoint, the unmoved liquidity at a coinjoin is
  -- the value of the owners' outputs up to there that stay in the mix or are remixed, not within three
  -- coinjoins, and that no input of the owners in a later coinjoin up to there spends.
  pub liquidity_series-unmoved :
      (coinjoins : List Coinjoin) (i : ℕ) (p : Point)
      → IsDistinct (all_created coinjoins)
      → get_elem? (liquidity_series coinjoins field owners) i ≡ some p
      → p.unmoved_window ≡ pos (unspent field owners (take (suc i) coinjoins))
  unfolding liquidity_series has_key left
  liquidity_series-unmoved coinjoins i p d e =
      series_from-unspent empty_totals coinjoins i p d refl (λ k m. refl) tt e
      ∙ ap pos (omega arith)
