-- ===== src/Client/Bundles.antt =====
-- The contact bundles that a client hands out.
use secure_messenger_lab.Prelude.{
  ℕ, ◌+◌, ◌≤◌, ◌<◌, ◌≡◌, ap, ◌∙◌, subst, true, arith, Option-cases, inl, inr,
}
use secure_messenger_lab.Errors.{ok}
use secure_messenger_lab.Bytes.{u64_max}
use secure_messenger_lab.Crypto.{Crypto}
use secure_messenger_lab.Client.Olm.{Olm, SigningLaws}
use secure_messenger_lab.Client.PreKeys.{
  PeerPreKey, verify, verify_exact, without_signature, bundle_signing_bytes,
  peer_prekey_signing_bytes, contact_bundle_max_validity_seconds,
}
use secure_messenger_lab.Client.State.{OlmClient, prekey_bundle}

-- Under the laws of the account's signatures, a bundle that `prekey_bundle` returns is accepted by
-- `PeerPreKey::verify` for the client's own identity, at every time before its expiry from five
-- minutes ahead of it on.
pub verify-prekey_bundle :
    (c : Crypto) {A S : Type 0} (o : Olm A S) (laws : SigningLaws c o)
    (client client' : OlmClient A S) (bundle : PeerPreKey) (valid_until now : ℕ)
    → prekey_bundle o client valid_until ≡ (ok bundle, client')
    → now < valid_until
    → valid_until ≤ now + contact_bundle_max_validity_seconds
    → now + contact_bundle_max_validity_seconds ≤ u64_max
    → verify c bundle (o.ed25519_key client.account) now ≡ ok (without_signature bundle)
unfolding prekey_bundle bundle_signing_bytes
verify-prekey_bundle c o laws client client' bundle valid_until now e live short small =
    elim (Option-cases (o.first_one_time_key (o.generate_one_time_key client.account))) [
      | inl none_left ↦ absurd (ground arith)
      | inr (key, found) ↦
          let account = o.generate_one_time_key client.account in
          let same = laws.keep_generate client.account in
          let made : bundle ≡ record {
            signing_identity = o.ed25519_key account;
            curve_identity = o.curve25519_key account;
            one_time_key = key;
            valid_until = valid_until;
            signature = o.sign account (
                peer_prekey_signing_bytes (o.ed25519_key account) (o.curve25519_key account) key
                  valid_until);
          } =
            ground arith in
          let valid : bundle.valid_until ≡ valid_until = ap (λ b. b.valid_until) made in
          (verify_exact c bundle (o.ed25519_key client.account) now small).0 (record {
            pinned_identity = ap (λ b. b.signing_identity) made ∙ same;
            live = omega (arith, valid, live);
            short = omega (arith, valid, short);
            signed = rw made (
                subst
                  (λ k.
                    c.verify k
                      (peer_prekey_signing_bytes (o.ed25519_key account) (o.curve25519_key account)
                        key valid_until)
                      (o.sign account (
                        peer_prekey_signing_bytes (o.ed25519_key account) (o.curve25519_key account)
                          key valid_until))
                    ≡ true)
                  same (laws.verify_sign account _));
          })
    ]
