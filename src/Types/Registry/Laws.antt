-- ===== src/Types/Registry/Laws.antt =====
-- What the registry resolves after the module has registered its types.
use abstract_account.Prelude.{◌≡◌, Bytes}
use abstract_account.Result.{ok}
use abstract_account.Exec.{and_then-elim}
use abstract_account.Types.Registry.{
  GoInterface, account_i, pub_key_i, msg_i, RegistryOps, url_of, abstract_account_name,
  nil_pub_key_name, msg_register_account_name, msg_update_params_name, msg_service_name,
  register_interfaces,
}

module _ {W Registry : Type 0} (ops : RegistryOps W Registry) where
  -- The account, the public key and the two messages of the module resolve.
  pub record ResolvesModule (r : Registry) (w : W) : Type 0 where
    pub account : ops.Resolves r w account_i (url_of abstract_account_name)
    pub key : ops.Resolves r w pub_key_i (url_of nil_pub_key_name)
    pub register : ops.Resolves r w msg_i (url_of msg_register_account_name)
    pub update : ops.Resolves r w msg_i (url_of msg_update_params_name)

  pub register_interfaces-ResolvesModule :
      (r : Registry) (w w' : W) → register_interfaces ops r w ≡ (ok tt, w') → ResolvesModule r w'
  unfolding register_interfaces
  register_interfaces-ResolvesModule r w w' h =
      and_then-elim (ops.register_implementations r account_i (url_of abstract_account_name) w) _ h
        λ x1 w1 e1 h1.
          and_then-elim (ops.register_implementations r pub_key_i (url_of nil_pub_key_name) w1) _ h1
            λ x2 w2 e2 h2.
              and_then-elim
                (ops.register_implementations r msg_i (url_of msg_register_account_name) w2) _ h2
                λ x3 w3 e3 h3.
                  and_then-elim
                    (ops.register_implementations r msg_i (url_of msg_update_params_name) w3) _ h3
                    λ x4 w4 e4 h4.
                      let k2 = ops.registration_keeps r pub_key_i _ w1 w2 e2 in
                      let k3 = ops.registration_keeps r msg_i _ w2 w3 e3 in
                      let k4 = ops.registration_keeps r msg_i _ w3 w4 e4 in
                      let k5 = ops.service_keeps r msg_service_name w4 w' h4 in
                      let one = ops.registers r account_i _ w w1 e1 in
                      let two = ops.registers r pub_key_i _ w1 w2 e2 in
                      let three = ops.registers r msg_i _ w2 w3 e3 in
                      let four = ops.registers r msg_i _ w3 w4 e4 in
                      record {
                        account = k5 _ _ (k4 _ _ (k3 _ _ (k2 _ _ one)));
                        key = k5 _ _ (k4 _ _ (k3 _ _ two));
                        register = k5 _ _ (k4 _ _ three);
                        update = k5 _ _ four;
                      }

  -- The module takes no registration back.
  pub register_interfaces_keeps :
      (r : Registry) (w w' : W)
      → register_interfaces ops r w ≡ (ok tt, w')
      → (j : GoInterface) (other : Bytes) → ops.Resolves r w j other
      → ops.Resolves r w' j other
  unfolding register_interfaces
  register_interfaces_keeps r w w' h j other known =
      and_then-elim (ops.register_implementations r account_i _ w) _ h λ x1 w1 e1 h1.
        and_then-elim (ops.register_implementations r pub_key_i _ w1) _ h1 λ x2 w2 e2 h2.
          and_then-elim (ops.register_implementations r msg_i _ w2) _ h2 λ x3 w3 e3 h3.
            and_then-elim (ops.register_implementations r msg_i _ w3) _ h3 λ x4 w4 e4 h4.
              ops.service_keeps r _ w4 w' h4 j other (
                ops.registration_keeps r msg_i _ w3 w4 e4 j other (
                  ops.registration_keeps r msg_i _ w2 w3 e3 j other (
                    ops.registration_keeps r pub_key_i _ w1 w2 e2 j other
                      (ops.registration_keeps r account_i _ w w1 e1 j other known))))
