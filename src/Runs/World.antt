-- ===== src/Runs/World.antt =====
-- A small chain for the tests: a store, accounts, and a contract whose address says what it does.
use abstract_account.Prelude.{
  ℕ, ◌+◌, ◌≡◌, ◌≢◌, refl, sym, ap, Bytes, Bool, true, false, Option, none, some, [], ◌∷◌, ◌==◌,
  bytes_equal, bytes_equal_iff, Bool-cases, inl, inr, if◌then◌else◌,
}
use abstract_account.Result.{Result, ok, err, external, Error}
use abstract_account.Sdk.{AccAddress, KvStore, BigEndian, Bech32}
use abstract_account.Chain.{AccountKeeper, ContractOps, EventManager}
use abstract_account.Types.Account.{Account, base_account, account_address}
use abstract_account.Ante.{AnteOps}

pub record World : Type 0 where
  pub store : Bytes → Option Bytes
  pub accounts : Bytes → Option Account
  pub gas : ℕ
  pub events : ℕ
  pub labels : Bytes → Option Bytes

abbrev pub empty_world : World
empty_world = record {
  store = λ k. none;
  accounts = λ a. none;
  gas = 0;
  events = 0;
  labels = λ a. none;
}

abbrev pub world_store : KvStore World
world_store = record {
  get = λ s k. s.store k;
  set = λ s k v. record s { store = λ j. if bytes_equal k j then some v else s.store j };
  delete = λ s k. record s { store = λ j. if bytes_equal k j then none else s.store j };
  get-set = λ s k j v. refl;
  get-delete = λ s k j. refl;
}

-- A number as one cell.
abbrev pub cell_of : Option Bytes → ℕ
cell_of none = 0
cell_of (some []) = 0
cell_of (some (n ∷ rest)) = n

abbrev pub cells : BigEndian
cells = record {
  encode = λ n. n ∷ [];
  decode = cell_of;
  decode-encode = λ n h. refl;
  decode-nil = refl;
}

-- An address is its own text.
abbrev pub text_of : AccAddress → Bytes
text_of none = []
text_of (some a) = a

abbrev address_of : Bytes → AccAddress × Option Error
address_of [] = (none, some (external 0))
address_of (x ∷ a) = (some (x ∷ a), none)

abbrev pub plain : Bech32
plain = record { to_string = text_of; from_bech32 = address_of; from-to = λ x a. refl }

abbrev has_address : AccAddress → Bytes → Bool
has_address none b = false
has_address (some a) b = bytes_equal a b

has_address-eq : (addr : AccAddress) (b : Bytes) → has_address addr b ≡ true → addr ≡ some b
has_address-eq none b e = cc
has_address-eq (some a) b e = ap some ((bytes_equal_iff a b).0 e)

abbrev own : Bytes → Option Account → Option Account
own b none = none
own b (some acc) = if has_address (account_address plain acc) b then some acc else none

abbrev find : World → AccAddress → Option Account
find s none = none
find s (some []) = none
find s (some (x ∷ a)) = own (x ∷ a) (s.accounts (x ∷ a))

abbrev save : World → Account → World
save s acc = record s {
  accounts = λ b. if has_address (account_address plain acc) b then some acc else s.accounts b;
}

pub found_saved :
    (s : World) (acc : Account) (x : ℕ) (a : Bytes)
    → account_address plain acc ≡ some (x ∷ a)
    → find (save s acc) (some (x ∷ a)) ≡ some acc
found_saved s acc x a e =
    let same : has_address (account_address plain acc) (x ∷ a) ≡ true =
      rw e ((bytes_equal_iff (x ∷ a) (x ∷ a)).1 refl) in
    rw (same, same) refl

pub found_other :
    (s : World) (acc : Account) (addr : AccAddress)
    → addr ≢ account_address plain acc
    → find (save s acc) addr ≡ find s addr
found_other s acc none n = refl
found_other s acc (some []) n = refl
found_other s acc (some (x ∷ a)) n =
    elim (Bool-cases (has_address (account_address plain acc) (x ∷ a))) [
      | inl e ↦ absurd (n (sym (has_address-eq _ _ e)))
      | inr e ↦ rw e refl
    ]

own-address :
    (b : Bytes) (o : Option Account) (acc : Account)
    → own b o ≡ some acc
    → account_address plain acc ≡ some b
own-address b none acc e = cc
own-address b (some a) acc e = elim (Bool-cases (has_address (account_address plain a) b)) [
  | inl t ↦
      let same : own b (some a) ≡ some a = rw t refl in
      let eq : a ≡ acc = cc (same, e) in rw (← eq) (has_address-eq _ _ t)
  | inr f ↦ let gone : own b (some a) ≡ none = rw f refl in cc
]

pub found-address :
    (s : World) (addr : AccAddress) (acc : Account)
    → find s addr ≡ some acc
    → (x : ℕ) × (a : Bytes) × (addr ≡ some (x ∷ a)) × (account_address plain acc ≡ addr)
found-address s none acc e = cc
found-address s (some []) acc e = cc
found-address s (some (x ∷ a)) acc e = (x, a, refl, own-address (x ∷ a) _ acc e)

abbrev pub world_accounts : AccountKeeper World plain
world_accounts = record {
  get_account = find;
  set_account = save;
  get-set_account = found_saved;
  get-set_account_ne = found_other;
  get_account-address = found-address;
}

-- A new contract's address is 7 and the salt, with a base account of number 5; an existing base
-- account is kept.
abbrev fresh : AccAddress → Account
fresh a = base_account (record { get_address = a; get_account_number = 5; get_sequence = 0 })

-- The contract at an address that begins with 9 refuses every message.
abbrev refuses : AccAddress → Bool
refuses none = true
refuses (some []) = true
refuses (some (x ∷ a)) = x == 9

abbrev pub world_contracts : ContractOps World Bytes
world_contracts = record {
  instantiate2 = λ code creator admin msg label funds salt fix s. (
    ok (some (7 ∷ salt), label),
    record (save s (fresh (some (7 ∷ salt)))) {
      labels = λ a. if bytes_equal (7 ∷ salt) a then some label else s.labels a;
    },
  );
  update_contract_admin = λ contract caller admin s. (ok tt, s);
  sudo = λ contract msg s.
      if refuses contract
      then (err (external 1), record s { gas = 0 })
      else (ok [], record s { events = s.events + 1 });
}

pub found_event :
    (s : World) (addr : AccAddress) → find (record s { events = s.events + 1 }) addr ≡ find s addr
found_event s none = refl
found_event s (some []) = refl
found_event s (some (x ∷ a)) = refl

abbrev pub world_events : EventManager World world_store world_accounts
world_events = record {
  emit_typed_event = λ e s. (ok tt, record s { events = s.events + 1 });
  emit-accounts = λ e s addr. found_event s addr;
  emit-store = λ e s k. refl;
}

abbrev signer_of : Option Account → Result Account
signer_of none = err (external 2)
signer_of (some acc) = ok acc

abbrev pub world_ante : AnteOps World
world_ante = record {
  get_signer_acc = λ s addr. signer_of (find s addr);
  sig_verification = λ next tx simulate s. next tx simulate s;
  sig_gas = λ sig s. (ok tt, s);
  get_sign_bytes = λ mode signer tx. ok (some (mode ∷ signer.address));
  chain_id = λ s. [];
  cache_context = λ s. s;
  with_gas_meter = λ g s. record s { gas = g };
  write = λ cache s. record cache { gas = s.gas };
  emit_events_of = λ cache s. s;
}
