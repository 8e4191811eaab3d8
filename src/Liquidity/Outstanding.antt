-- ===== src/Liquidity/Outstanding.antt =====
-- The dictionary of unmoved outputs, and the running total of what it holds.
use coinjoin_pipeline.Base.{
  ℕ, ◌+◌, ◌≡◌, refl, sym, ap, ◌∙◌, String, Bool, true, false, List, [], ◌∷◌, arith, Option, none,
  some, ◌==◌, string_equality, ◌||◌, contains, IsDistinct, ◌∈◌, ≢→==, contains-head, ℤ, pos, ◌+ℤ◌,
  ◌-ℤ◌, int_laws, nat_equality,
}
use coinjoin_pipeline.Liquidity.Classify.{Outpoint, outpoint_eq, outpoint, outpoint_beq_iff}
use coinjoin_pipeline.Liquidity.Conservation.{parts_of_eq}
use coinjoin_pipeline.Liquidity.Records.{Coinjoin, InputItem, OutputItem}
use coinjoin_pipeline.Liquidity.Series.{
  EventField, Totals, Unmoved, series_step, owned_inputs, owned_outputs, pop_value, pop_rest,
  set_value, retire, retire_one, deposit, deposit_one, waits, value_of,
}

abbrev pub held : Unmoved → ℕ
held [] = 0
held ((k, value) ∷ rest) = value + held rest

unfoldable pub has_key : Outpoint → Unmoved → Bool
has_key key [] = false
has_key key ((k, value) ∷ rest) = key == k || has_key key rest

-- The running total is what the outstanding outputs hold.
abbrev pub IsAccounted : ℤ × Unmoved → Type 0
IsAccounted o = o.0 ≡ pos (held o.1)

-- No output of the list is outstanding.
abbrev pub IsFresh : List Outpoint → Unmoved → Type 0
IsFresh keys u = (k : Outpoint) → k ∈ keys → has_key k u ≡ false

pub held-pop : (key : Outpoint) (u : Unmoved) → pop_value key u + held (pop_rest key u) ≡ held u
unfolding pop_value pop_rest
held-pop key [] = refl
held-pop key ((k, value) ∷ rest) = ground (arith, held-pop key rest)

pub has_key-pop :
    (key k : Outpoint) (u : Unmoved) → has_key k u ≡ false → has_key k (pop_rest key u) ≡ false
unfolding has_key pop_rest
has_key-pop key k [] h = h
has_key-pop key k ((j, value) ∷ rest) h = ground (arith, has_key-pop key k rest)

pub held-set :
    (key : Outpoint) (value : ℕ) (u : Unmoved)
    → has_key key u ≡ false
    → held (set_value key value u) ≡ held u + value
unfolding has_key set_value
held-set key value [] h = omega arith
held-set key value ((k, old) ∷ rest) h =
    ground (arith, held-set key value rest, outpoint_beq_iff key k, outpoint_beq_iff k key)

pub has_key-set :
    (key k : Outpoint) (value : ℕ) (u : Unmoved)
    → (k == key) ≡ false
    → has_key k u ≡ false
    → has_key k (set_value key value u) ≡ false
unfolding has_key set_value
has_key-set key k value [] n h = ground arith
has_key-set key k value ((j, old) ∷ rest) n h = ground (arith, has_key-set key k value rest)

pop_pos :
    (current : ℤ) (taken left : ℕ) → current ≡ pos (taken + left) → current -ℤ pos taken ≡ pos left
pop_pos current taken left h = let parts = parts_of_eq _ _ h in omega int_laws

set_pos :
    (current : ℤ) (now added : ℕ) → current ≡ pos now → current +ℤ pos added ≡ pos (now + added)
set_pos current now added h = let parts = parts_of_eq _ _ h in omega int_laws

pub retire_one-IsAccounted :
    (spent : Option Outpoint) (o : ℤ × Unmoved) → IsAccounted o → IsAccounted (retire_one spent o)
unfolding retire_one
retire_one-IsAccounted none (current, u) h = h
retire_one-IsAccounted (some spent) (current, u) h =
    pop_pos current (pop_value spent u) _ (h ∙ ap pos (sym (held-pop spent u)))

retire_one-IsFresh :
    (keys : List Outpoint) (spent : Option Outpoint) (o : ℤ × Unmoved)
    → IsFresh keys o.1
    → IsFresh keys (retire_one spent o).1
unfolding retire_one
retire_one-IsFresh keys none (current, u) h = h
retire_one-IsFresh keys (some spent) (current, u) h = λ k m. has_key-pop spent k u (h k m)

pub retire-IsFresh :
    (keys : List Outpoint) (items : List InputItem) (o : ℤ × Unmoved)
    → IsFresh keys o.1
    → IsFresh keys (retire items o).1
unfolding retire
retire-IsFresh keys [] o f = f
retire-IsFresh keys (item ∷ items) o f =
    let spent = outpoint item.prev_txid item.prev_vout in
    retire-IsFresh keys items (retire_one spent o) (retire_one-IsFresh keys spent o f)

retire-kept :
    (keys : List Outpoint) (items : List InputItem) (o : ℤ × Unmoved)
    → IsAccounted o
    → IsFresh keys o.1
    → IsAccounted (retire items o) × IsFresh keys (retire items o).1
unfolding retire
retire-kept keys [] o h f = (h, f)
retire-kept keys (item ∷ items) o h f =
    let spent = outpoint item.prev_txid item.prev_vout in
    retire-kept keys items (retire_one spent o) (retire_one-IsAccounted spent o h)
      (retire_one-IsFresh keys spent o f)

deposit_one-kept :
    (keys : List Outpoint) (on : Bool) (key : Outpoint) (value : ℕ) (o : ℤ × Unmoved)
    → contains key keys ≡ false
    → IsAccounted o
    → IsFresh (key ∷ keys) o.1
    → IsAccounted (deposit_one on key value o) × IsFresh keys (deposit_one on key value o).1
unfolding deposit_one contains
deposit_one-kept keys false key value o n h f = (h, λ k m. f k (ground arith))
deposit_one-kept keys true key value (current, u) n h f =
    let absent = f key (contains-head key keys) in
    (
      set_pos current (held u) value h ∙ ap pos (sym (held-set key value u absent)),
      λ k m. has_key-set key k value u (≢→== k key (λ e. cc (n, m, e))) (f k (ground arith)),
    )

-- The outpoints that coinjoins create.
unfoldable pub created : String → List OutputItem → List Outpoint → List Outpoint
created txid [] later = later
created txid (item ∷ items) later = (txid, item.index) ∷ created txid items later

unfoldable pub all_created : List Coinjoin → List Outpoint
all_created [] = []
all_created (c ∷ cs) = created c.txid c.outputs (all_created cs)

deposit-kept :
    (field : EventField) (txid : String) (items : List OutputItem) (later : List Outpoint)
    (o : ℤ × Unmoved)
    → IsDistinct (created txid items later)
    → IsAccounted o
    → IsFresh (created txid items later) o.1
    → IsAccounted (deposit field txid items o) × IsFresh later (deposit field txid items o).1
unfolding deposit created
deposit-kept field txid [] later o d h f = (h, f)
deposit-kept field txid (item ∷ items) later o d h f =
    let (kept, fresh) =
      deposit_one-kept (created txid items later) (waits field item) (txid, item.index)
        (value_of item.value) o d.0 h f in
    deposit-kept field txid items later _ d.1 kept fresh

pub later-IsDistinct :
    (txid : String) (items : List OutputItem) (later : List Outpoint)
    → IsDistinct (created txid items later)
    → IsDistinct later
unfolding created
later-IsDistinct txid [] later d = d
later-IsDistinct txid (item ∷ items) later d = later-IsDistinct txid items later d.1

module _ (field : EventField) (owners : Option (List String)) where
  created-owned :
      (txid : String) (k : Outpoint) (items : List OutputItem) (later : List Outpoint)
      → k ∈ created txid (owned_outputs owners items) later
      → k ∈ created txid items later
  unfolding created owned_outputs contains
  created-owned txid k [] later m = m
  created-owned txid k (item ∷ items) later m = ground (arith, created-owned txid k items later)

  pub created-IsDistinct :
      (txid : String) (items : List OutputItem) (later : List Outpoint)
      → IsDistinct (created txid items later)
      → IsDistinct (created txid (owned_outputs owners items) later)
  unfolding created owned_outputs
  created-IsDistinct txid [] later d = d
  created-IsDistinct txid (item ∷ items) later d = ground (
    arith,
    created-IsDistinct txid items later,
    created-owned txid (txid, item.index) items later,
  )

  abbrev pub outstanding : Totals → ℤ × Unmoved
  outstanding totals = (totals.current_unmoved, totals.unmoved)

  pub later-IsFresh :
      (c : Coinjoin) (cs : List Coinjoin) (u : Unmoved)
      → IsFresh (all_created (c ∷ cs)) u
      → IsFresh (created c.txid (owned_outputs owners c.outputs) (all_created cs)) u
  unfolding all_created
  later-IsFresh c cs u f = λ k m. f k (created-owned c.txid k c.outputs (all_created cs) m)

  pub series_step-kept :
      (totals : Totals) (c : Coinjoin) (cs : List Coinjoin)
      → IsDistinct (all_created (c ∷ cs))
      → IsAccounted (outstanding totals)
      → IsFresh (all_created (c ∷ cs)) totals.unmoved
      → IsAccounted (outstanding (series_step field owners totals c).0)
        × IsFresh (all_created cs) (series_step field owners totals c).0.unmoved
  unfolding series_step all_created
  series_step-kept totals c cs d h f =
      let keys : List Outpoint = created c.txid (owned_outputs owners c.outputs) (all_created cs) in
      let (kept, fresh) =
        retire-kept keys (owned_inputs owners c.inputs) (outstanding totals) h
          (later-IsFresh c cs totals.unmoved f) in
      deposit-kept field c.txid (owned_outputs owners c.outputs) (all_created cs) _
        (created-IsDistinct c.txid c.outputs (all_created cs) d) kept fresh
