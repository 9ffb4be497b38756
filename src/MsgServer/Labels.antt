-- ===== src/MsgServer/Labels.antt =====
-- Every registered contract has its own label.
use abstract_account.Prelude.{
  ℕ, ◌+◌, ◌^◌, ◌≤◌, ◌<◌, ◌≡◌, ◌≢◌, sym, ap, ◌∙◌, Bytes, Bool, false, Option, some, IsU64, List, [],
  ◌∷◌, All, arith,
}
use abstract_account.Prelude.Decimal.{decimal-injective}
use abstract_account.Result.{ok}
use abstract_account.Exec.{and_then-elim, lift-elim}
use abstract_account.Sdk.{AccAddress, KvStore, BigEndian, Bech32, ParamsCodec}
use abstract_account.Chain.{ContractOps, AccountKeeper, EventManager}
use abstract_account.Types.Account.{Account, abs_account, new_abstract_account_from_account}
use abstract_account.Types.Msgs.{
  EventAccountRegistered, MsgRegisterAccount, MsgRegisterAccountResponse,
}
use abstract_account.Keeper.{get_next_account_id}
use abstract_account.Keeper.Laws.{get_and_increment_lem}
use abstract_account.MsgServer.{label, as_base_account, adopt, register_account}
use abstract_account.MsgServer.Register.{register_account-Registered}
use mathlib.Core.Logic.Or
use mathlib.Core.List.{Mem, mem-cons, not-mem-nil, Pairwise, Pairwise-cons}

-- Labels of different IDs differ.
pub label-injective : (a b : ℕ) → IsU64 a → IsU64 b → label a ≡ label b → a ≡ b
unfolding label
label-injective a b ha hb e = decimal-injective a b ha hb (cc)

-- The counter's value before a registration, and the label of the contract that it made.
pub record Entry : Type 0 where
  pub id : ℕ
  pub text : Bytes

abbrev pub BeforeWrap : Entry → Type 0
BeforeWrap r = r.id + 1 < 2 ^ 64

abbrev pub Differ : Entry → Entry → Type 0
Differ a b = a.text ≢ b.text

-- The entry has the label of its counter's value, which is `n` or more.
abbrev IsFrom : ℕ → Entry → Type 0
IsFrom n r = (n ≤ r.id) × (r.text ≡ label r.id)

All-IsFrom : (m n : ℕ) (rs : List Entry) → m ≤ n → All (IsFrom n) rs → All (IsFrom m) rs
All-IsFrom m n [] h k = tt
All-IsFrom m n (x ∷ xs) h k = ((omega (arith, k.0.0), k.0.1), All-IsFrom m n xs h k.1)

All-at :
    (P : Entry → Type 0) (rs : List Entry) (r : Entry)
    → ((x : Entry) → IsProp (P x))
    → All P rs
    → Mem r rs
    → P r
All-at P [] r prop h m = absurd (not-mem-nil m)
All-at P (x ∷ xs) r prop h m =
    Or.elim (prop r) (mem-cons.0 m) (λ e. rw e h.0) (All-at P xs r prop h.1)

All-Differ :
    (r : Entry) (rs : List Entry)
    → r.text ≡ label r.id
    → BeforeWrap r
    → All BeforeWrap rs
    → All (IsFrom (r.id + 1)) rs
    → All (Differ r) rs
All-Differ r [] e h k f = tt
All-Differ r (x ∷ xs) e h k f = (
  (λ same.
      let eq : r.id ≡ x.id =
        label-injective r.id x.id (omega (arith, h)) (omega (arith, k.0)) (sym e ∙ same ∙ f.0.1) in
      absurd (omega (arith, eq, f.0.0))),
  All-Differ r xs e h k.1 f.1,
)

module _ {S Coin : Type 0} (kv : KvStore S) (be : BigEndian) (cdc : ParamsCodec) (bech32 : Bech32)
    (ak : AccountKeeper S bech32) (ck : ContractOps S Coin) (em : EventManager S kv ak)
    (label_at : S → Bytes → Option Bytes) where
  -- A step leaves the labels as they are and does not set the counter back.
  abbrev pub Same : S → S → Type 0
  Same s t =
      ((a : Bytes) → label_at t a ≡ label_at s a)
      × (get_next_account_id kv be s ≤ get_next_account_id kv be t)

  -- x/wasm keeps with each contract the label that it was instantiated with. The other calls of a
  -- registration change no label, and none sets the counter of this module back.
  pub record KeepsLabels : Type 0 where
    pub instantiate2-label :
        (code : ℕ) (creator admin : AccAddress) (msg l : Bytes) (funds : List Coin) (salt : Bytes)
        (fix_msg : Bool) (s t : S) (contract : AccAddress) (data_bytes : Bytes)
        → ck.instantiate2 code creator admin msg l funds salt fix_msg s
          ≡ (ok (contract, data_bytes), t)
        → (label_at t (bech32.to_string contract) ≡ some l)
          × (get_next_account_id kv be s ≤ get_next_account_id kv be t)
    pub update_contract_admin-Same :
        (contract caller admin : AccAddress) (s t : S)
        → ck.update_contract_admin contract caller admin s ≡ (ok tt, t)
        → Same s t
    pub set_account-Same : (s : S) (acc : Account) → Same s (ak.set_account s acc)
    pub emit-Same : (e : EventAccountRegistered) (s : S) → Same s (em.emit_typed_event e s).1

  Same-trans : (s t u : S) → Same s t → Same t u → Same s u
  Same-trans s t u h k = ((λ a. k.0 a ∙ h.0 a), omega (arith, h.1, k.1))

  adopt-Same :
      (req : MsgRegisterAccount Coin) (sender contract : AccAddress) (bytes : Bytes) (s s' : S)
      (resp : MsgRegisterAccountResponse)
      → KeepsLabels
      → adopt kv be cdc bech32 ak ck em req sender contract bytes s ≡ (ok resp, s')
      → Same s s'
  unfolding adopt
  adopt-Same req sender contract bytes s s' resp k h =
      and_then-elim (ck.update_contract_admin contract sender contract s) _ h λ x s1 admin h1.
        lift-elim (as_base_account (ak.get_account s1 contract)) s1 _ h1 λ acc checked h2.
          let new : Account = abs_account (new_abstract_account_from_account bech32 acc) in
          let e : EventAccountRegistered = record {
            creator = req.sender;
            code_id = req.code_id;
            contract_addr = bech32.to_string contract;
          } in
          and_then-elim (em.emit_typed_event e (ak.set_account s1 new)) _ h2 λ y s2 emitted h3.
            let last : (em.emit_typed_event e (ak.set_account s1 new)).1 ≡ s' =
              ap (λ r. r.1) emitted ∙ ap (λ r. r.1) h3 in
            let saved = k.set_account-Same s1 new in
            Same-trans s s1 s' (k.update_contract_admin-Same contract sender contract s s1 admin) (
              Same-trans s1 (ak.set_account s1 new) s' saved
                (rw (← last) (k.emit-Same e (ak.set_account s1 new))))

  -- The contract of a registration has the label of the counter's value, and the counter has moved.
  labelled :
      (req : MsgRegisterAccount Coin) (s t : S) (resp : MsgRegisterAccountResponse)
      → KeepsLabels
      → register_account kv be cdc bech32 ak ck em req s ≡ (ok resp, t)
      → get_next_account_id kv be s + 1 < 2 ^ 64
      → (label_at t resp.address ≡ some (label (get_next_account_id kv be s)))
        × (get_next_account_id kv be s + 1 ≤ get_next_account_id kv be t)
  labelled req s t resp k h fits =
      let r = register_account-Registered kv be cdc bech32 ak ck em req s t resp h in
      let (s', moved, next, others) = get_and_increment_lem kv be s in
      let at : s' ≡ r.counted = cc (moved, r.moved) in
      let counted : get_next_account_id kv be r.counted ≡ get_next_account_id kv be s + 1 =
        rw (← at) (next ∙ omega (arith, fits)) in
      let (made, kept) =
        k.instantiate2-label req.code_id r.sender r.sender req.msg _ req.funds req.salt false
          r.counted r.instantiated r.contract r.bytes r.instance_made in
      let same = adopt-Same req r.sender r.contract r.bytes r.instantiated t resp k r.rest in
      (
        rw r.response (same.0 (bech32.to_string r.contract) ∙ made),
        omega (arith, counted, kept, same.1),
      )

  -- A history of registrations, with the label that each contract has when its registration
  -- returns. The steps between them do not set the counter back.
  pub data Registrations : S → List Entry → Type 0 where
    done : {s : S} → Registrations s []
    other :
        {s t : S} {rs : List Entry}
        → get_next_account_id kv be s ≤ get_next_account_id kv be t
        → Registrations t rs
        → Registrations s rs
    registered :
        {s t : S} (req : MsgRegisterAccount Coin) (resp : MsgRegisterAccountResponse) {r : Entry}
        {rs : List Entry}
        → register_account kv be cdc bech32 ak ck em req s ≡ (ok resp, t)
        → get_next_account_id kv be s ≡ r.id
        → label_at t resp.address ≡ some r.text
        → Registrations t rs
        → Registrations s (r ∷ rs)

  entry-IsFrom :
      (s t : S) (req : MsgRegisterAccount Coin) (resp : MsgRegisterAccountResponse) (r : Entry)
      → KeepsLabels
      → register_account kv be cdc bech32 ak ck em req s ≡ (ok resp, t)
      → get_next_account_id kv be s ≡ r.id
      → label_at t resp.address ≡ some r.text
      → BeforeWrap r
      → (r.text ≡ label r.id) × (r.id + 1 ≤ get_next_account_id kv be t)
  entry-IsFrom s t req resp r k h id text fits =
      let (made, moved) = labelled req s t resp k h (rw id fits) in
      (cc (made, id, text), omega (arith, moved, id))

  entries-IsFrom :
      {s : S} {rs : List Entry}
      → KeepsLabels
      → Registrations s rs
      → All BeforeWrap rs
      → All (IsFrom (get_next_account_id kv be s)) rs
  entries-IsFrom k done h = tt
  entries-IsFrom k (other {rs = rs} le hist) h = All-IsFrom _ _ rs le (entries-IsFrom k hist h)
  entries-IsFrom k (registered {s = s} {t = t} req resp {r = r} {rs = rs} e id text hist) h =
      let (same, next) = entry-IsFrom s t req resp r k e id text h.0 in
      (
        (omega (arith, id), same),
        All-IsFrom _ _ rs (omega (arith, id, next)) (entries-IsFrom k hist h.1),
      )

  -- In a history of registrations, the contracts have different labels when their registrations
  -- return, whatever code they run and whatever else happens in between, as long as the counter
  -- does not run over 2 ^ 64 and nothing sets it back, and x/wasm keeps the label that a contract
  -- was instantiated with during the registration.
  pub labels_distinct :
      {s : S} {rs : List Entry}
      → KeepsLabels
      → Registrations s rs
      → All BeforeWrap rs
      → Pairwise Differ rs
  labels_distinct k done h = Pairwise.nil
  labels_distinct k (other le hist) h = labels_distinct k hist h
  labels_distinct k (registered {s = s} {t = t} req resp {r = r} {rs = rs} e id text hist) h =
      let (same, next) = entry-IsFrom s t req resp r k e id text h.0 in
      let differ =
        All-Differ r rs same h.0 h.1 (All-IsFrom _ _ rs next (entries-IsFrom k hist h.1)) in
      Pairwise-cons.1
        ((λ i m. All-at (Differ r) rs i (λ x. hlevel) differ m), labels_distinct k hist h.1)
