-- ===== src/Ethvm/State/View.antt =====
-- The abstract view of a state: what a contract can observe of it, with no frames. The writes
-- are given here as updates of functions.
use ovr.Prelude.{
  ◌-◌, ◌≡◌, fun_ext, Bool, true, Option, some, List, [], ◌∷◌, ◌++◌, Result, ok, err, ltb, ◌==◌,
  if◌then◌else◌, ◌>>=◌,
}
use ovr.Primitives.{H160, H256, U256, Bytes, checked_add, saturating_add}
use ovr.Evm.{Basic, Log, Transfer}
use ovr.Ethvm.Stack.{OvrStackSubstate, root, child}
use ovr.Ethvm.State.{OvrStackState, exists, basic, code, storage, deleted}

pub record View : Type 0 where
  pub exists : H160 → Bool
  pub basic : H160 → Basic
  pub code : H160 → Bytes
  pub storage : H160 → H256 → H256
  pub deleted : H160 → Bool
  pub logs : List Log

-- The logs of all frames, the outermost first.
abbrev pub all_logs : {M : Type 0} → OvrStackSubstate M → List Log
all_logs (root f) = f.logs
all_logs (child f p) = all_logs p ++ f.logs

abbrev pub view : {M : Type 0} → OvrStackState M → View
view s = record {
  exists = exists s;
  basic = basic s;
  code = code s;
  storage = storage s;
  deleted = deleted s;
  logs = all_logs s.substate;
}

-- Two views with the same readings are equal.
pub view_ext :
    (v w : View)
    → ((a : H160) → v.exists a ≡ w.exists a)
    → ((a : H160) → v.basic a ≡ w.basic a)
    → ((a : H160) → v.code a ≡ w.code a)
    → ((a : H160) (k : H256) → v.storage a k ≡ w.storage a k)
    → ((a : H160) → v.deleted a ≡ w.deleted a)
    → v.logs ≡ w.logs
    → v ≡ w
view_ext v w e b c s d l = λ i. record {
  exists = fun_ext e i;
  basic = fun_ext b i;
  code = fun_ext c i;
  storage = fun_ext (λ a. fun_ext (s a)) i;
  deleted = fun_ext d i;
  logs = l i;
}

abbrev pub at {ℓ} : {A : Type ℓ} → (H160 → A) → H160 → A → H160 → A
at f a x q = if q == a then x else f q

-- The writes that a contract's execution makes within one call frame.
pub data Write : Type 0 where
  inc_nonce touch reset_storage set_deleted reset_balance : H160 → Write
  set_storage : H160 → H256 → H256 → Write
  set_code : H160 → Bytes → Write
  log : H160 → List H256 → Bytes → Write
  transfer : Transfer → Write

-- The account becomes known, with this balance and nonce.
abbrev pub put_basic : H160 → Basic → View → View
put_basic a b v = record v { exists = at v.exists a true; basic = at v.basic a b }

abbrev pub put_balance : H160 → U256 → View → View
put_balance a x v = put_basic a (record (v.basic a) { balance = x }) v

module _ {E : Type 0} (out_of_fund : E) where
  abbrev pub spec_transfer : Transfer → View → View × Result (Unit {0}) E
  spec_transfer t v =
      if ltb (v.basic t.source).balance t.value
      then (put_basic t.source (v.basic t.source) v, err out_of_fund)
      else (
        let w = put_balance t.source ((v.basic t.source).balance - t.value) v in
            put_balance t.target (saturating_add (w.basic t.target).balance t.value) w,
        ok tt,
      )

  -- What each write does to the view; `none` is the overflow of a nonce, a panic.
  abbrev pub spec : Write → View → Option (View × Result (Unit {0}) E)
  spec (inc_nonce a) v = do
    nonce ← checked_add (v.basic a).nonce 1
    some (put_basic a (record (v.basic a) { nonce = nonce }) v, ok tt)
  spec (touch a) v = some (put_basic a (v.basic a) v, ok tt)
  spec (reset_storage a) v =
      some (record (put_basic a (v.basic a) v) { storage = at v.storage a (λ _. 0) }, ok tt)
  spec (set_deleted a) v = some (record v { deleted = at v.deleted a true }, ok tt)
  spec (reset_balance a) v = some (put_balance a 0 v, ok tt)
  spec (set_storage a k x) v =
      some (record v { storage = at v.storage a (λ j. if j == k then x else v.storage a j) }, ok tt)
  spec (set_code a c) v = some (record (put_basic a (v.basic a) v) { code = at v.code a c }, ok tt)
  spec (log a topics bytes) v = some (
    record v { logs = v.logs ++ record { address = a; topics = topics; bytes = bytes } ∷ [] },
    ok tt,
  )
  spec (transfer t) v = some (spec_transfer t v)
