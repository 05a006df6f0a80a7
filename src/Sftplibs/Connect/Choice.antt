-- ===== src/Sftplibs/Connect/Choice.antt =====
-- The credentials that ConnectSftpServer of sftplibs/sftplibs.go uses.
use ugoku.Base.{
  ◌≡◌, refl, ap, ◌∙◌, ◌≢◌, ℤ, Text, same, true, false, [], ◌∷◌, Result, ok, err, panic, ◌>>=◌,
  Option, none, some, >>=-ok, Bool-cases, inl, inr, arith,
}
use ugoku.Sftplibs.Connect.{
  public_keys, password_auth, ClientConfig, Ssh, address, assert_certificate,
  get_config_for_cert_login, get_config_for_key_login, get_config_for_password_login, choose_config,
  open_session, after_dial, after_config, connect_sftp_server,
}

module _ {W : Type 0} (ssh : Ssh W) (read_file : Text → Result Text) where
  open ssh use {Signer, SshClient, SftpClient, parse_private_key, new_cert_signer, dial, new_client}
  open ssh use {Certificate, PublicKey, parse_authorized_key, as_certificate}

  -- The signer of the key file.
  abbrev KeySigner : Text → Signer → Type 0
  KeySigner keyfile k = (read_file keyfile >>= parse_private_key) ≡ ok k

  -- The certificate in the certificate file.
  abbrev CertificateOf : Text → Certificate → Type 0
  CertificateOf certfile cert =
      (key : PublicKey) × ((read_file certfile >>= parse_authorized_key) ≡ ok key)
      × (as_certificate key ≡ some cert)

  -- The user, and exactly one method: the password only if there is no key file; the key file's
  -- signer, or one made from it and the certificate of the certificate file if there is one.
  pub record Chosen (user password keyfile certfile : Text) (c : ClientConfig Signer) : Type 0 where
    pub for_user : c.user ≡ user
    pub by_password : keyfile ≡ [] → c.auth ≡ password_auth password ∷ []
    pub by_key :
        keyfile ≢ []
        → certfile ≡ []
        → (k : Signer) × KeySigner keyfile k × (c.auth ≡ public_keys k ∷ [])
    pub by_certificate :
        keyfile ≢ []
        → certfile ≢ []
        → (k : Signer) × (cert : Certificate) × (s : Signer) × KeySigner keyfile k
          × CertificateOf certfile cert
          × (new_cert_signer cert k ≡ ok s)
          × (c.auth ≡ public_keys s ∷ [])

  asserted :
      (key : PublicKey) (cert : Certificate)
      → assert_certificate ssh read_file key ≡ ok cert
      → as_certificate key ≡ some cert
  asserted key cert h = of_type (as_certificate key) h
    where
      of_type :
          (r : Option Certificate)
          → elim r [ none ↦ panic | some x ↦ ok x ] ≡ ok cert
          → r ≡ some cert
      of_type none h = cc
      of_type (some x) h = ground arith

  cert_login :
      (user keyfile certfile : Text) (c : ClientConfig Signer)
      → get_config_for_cert_login ssh read_file user keyfile certfile ≡ ok c
      → (c.user ≡ user)
        × ((k : Signer) × (cert : Certificate) × (s : Signer) × KeySigner keyfile k
            × CertificateOf certfile cert
            × (new_cert_signer cert k ≡ ok s)
            × (c.auth ≡ public_keys s ∷ []))
  unfolding get_config_for_cert_login
  cert_login user keyfile certfile c h =
      let (bts, r1, h1) = >>=-ok (read_file keyfile) _ h in
      let (k, r2, h2) = >>=-ok (parse_private_key bts) _ h1 in
      let (cbts, r3, h3) = >>=-ok (read_file certfile) _ h2 in
      let (key, r4, h4) = >>=-ok (ssh.parse_authorized_key cbts) _ h3 in
      let (cert, r5, h5) = >>=-ok (assert_certificate ssh read_file key) _ h4 in
      let (s, r6, h6) = >>=-ok (new_cert_signer cert k) _ h5 in
      (
        ground arith,
        (
          k,
          cert,
          s,
          ap (λ (m : Result Text). m >>= parse_private_key) r1 ∙ r2,
          (
            key,
            ap (λ (m : Result Text). m >>= ssh.parse_authorized_key) r3 ∙ r4,
            asserted key cert r5,
          ),
          r6,
          ground arith,
        ),
      )

  key_login :
      (user keyfile : Text) (c : ClientConfig Signer)
      → get_config_for_key_login ssh read_file user keyfile ≡ ok c
      → (c.user ≡ user) × ((k : Signer) × KeySigner keyfile k × (c.auth ≡ public_keys k ∷ []))
  unfolding get_config_for_key_login
  key_login user keyfile c h =
      let (bts, r1, h1) = >>=-ok (read_file keyfile) _ h in
      let (k, r2, h2) = >>=-ok (parse_private_key bts) _ h1 in
      (ground arith, (k, ap (λ (m : Result Text). m >>= parse_private_key) r1 ∙ r2, ground arith))

  same_nil : (t : Text) → (same t [] ≡ true → t ≡ []) × (same t [] ≡ false → t ≢ [])
  unfolding same
  same_nil [] = (λ _. refl, λ e. cc)
  same_nil (x ∷ t) = (λ e. cc, λ e. λ e'. cc)

  choose_config-Chosen :
      (user password keyfile certfile : Text) (c : ClientConfig Signer)
      → choose_config ssh read_file user password keyfile certfile ≡ ok c
      → Chosen user password keyfile certfile c
  unfolding choose_config
  choose_config-Chosen user password keyfile certfile c h = elim (Bool-cases (same keyfile [])) [
    | inl a ↦ no_key a (rw (a, choose_config) at h)
    | inr a ↦ elim (Bool-cases (same certfile [])) [
      | inl b ↦ key_only a b (rw (a, b, choose_config) at h)
      | inr b ↦ both a b (rw (a, b, choose_config) at h)
    ]
  ]
    where
      no_key :
          same keyfile [] ≡ true
          → get_config_for_password_login ssh read_file user password ≡ ok c
          → Chosen user password keyfile certfile c
      no_key a g = record {
        for_user = ground arith;
        by_password = λ _. ground arith;
        by_key = λ ne _. absurd (ne ((same_nil keyfile).0 a));
        by_certificate = λ ne _. absurd (ne ((same_nil keyfile).0 a));
      }

      key_only :
          same keyfile [] ≡ false
          → same certfile [] ≡ true
          → get_config_for_key_login ssh read_file user keyfile ≡ ok c
          → Chosen user password keyfile certfile c
      key_only a b g =
          let (u, m) = key_login user keyfile c g in
          record {
            for_user = u;
            by_password = λ e. absurd ((same_nil keyfile).1 a e);
            by_key = λ _ _. m;
            by_certificate = λ _ ne. absurd (ne ((same_nil certfile).0 b));
          }

      both :
          same keyfile [] ≡ false
          → same certfile [] ≡ false
          → get_config_for_cert_login ssh read_file user keyfile certfile ≡ ok c
          → Chosen user password keyfile certfile c
      both a b g =
          let (u, m) = cert_login user keyfile certfile c g in
          record {
            for_user = u;
            by_password = λ e. absurd ((same_nil keyfile).1 a e);
            by_key = λ _ e. absurd ((same_nil certfile).1 b e);
            by_certificate = λ _ _. m;
          }

  -- A connection that succeeds has dialled `ip:port` with the credentials of `Chosen`, and has opened
  -- its SFTP session on the client that the dial gave.
  pub connect_sftp_server-Chosen :
      (ip : Text) (port : ℤ) (user password keyfile certfile : Text) (w : W) (client : SshClient)
      (sftp : SftpClient)
      → (connect_sftp_server ssh read_file ip port user password keyfile certfile w).0
        ≡ ok (client, sftp)
      → (c : ClientConfig Signer) × Chosen user password keyfile certfile c
        × ((dial (address ip port) c w).0 ≡ ok client)
        × ((new_client client (dial (address ip port) c w).1).0 ≡ ok sftp)
  unfolding connect_sftp_server
  connect_sftp_server-Chosen ip port user password keyfile certfile w client sftp h =
      dialled (choose_config ssh read_file user password keyfile certfile) refl h
    where
      opened :
          (cl : SshClient) (r : Result SftpClient × W)
          → (open_session ssh read_file cl r).0 ≡ ok (client, sftp)
          → (cl ≡ client) × (r.0 ≡ ok sftp)
      opened cl (ok s, v) e = (ground arith, ground arith)
      opened cl (err x, v) e = cc
      opened cl (panic, v) e = cc

      after :
          (r : Result SshClient × W)
          → (after_dial ssh read_file r).0 ≡ ok (client, sftp)
          → (r.0 ≡ ok client) × ((new_client client r.1).0 ≡ ok sftp)
      after (ok cl, v) e =
          let (same_client, s) = opened cl (new_client cl v) e in
          (ap ok same_client, rw same_client at s)
      after (err x, v) e = cc
      after (panic, v) e = cc

      dialled :
          (r : Result (ClientConfig Signer))
          → choose_config ssh read_file user password keyfile certfile ≡ r
          → (after_config ssh read_file (address ip port) r w).0 ≡ ok (client, sftp)
          → (c : ClientConfig Signer) × Chosen user password keyfile certfile c
            × ((dial (address ip port) c w).0 ≡ ok client)
            × ((new_client client (dial (address ip port) c w).1).0 ≡ ok sftp)
      dialled (ok c) eq e =
          let (d, s) = after (dial (address ip port) c w) e in
          (c, choose_config-Chosen user password keyfile certfile c eq, d, s)
      dialled (err x) eq e = cc
      dialled panic eq e = cc
