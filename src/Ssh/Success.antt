-- ===== src/Ssh/Success.antt =====
-- backend/internal/sshrunner/ssh.go: when a remote shutdown reports success.
use wol_secure_light_switch.Prelude.{
  ℕ, ◌≤◌, ◌≡◌, refl, ◌≢◌, inl, inr, true, false, Option, none, some, arith, List, [], Text, codes,
  same, Bool-cases, trim_right, ◌++◌,
}
use wol_secure_light_switch.Config.{Host}
use wol_secure_light_switch.Ssh.{
  ssh_output_limit, Credential, public_key, password, Connection, dial_failed, deadline_failed,
  handshake_failed, session_failed, ran, Remote, Credentials, usable, unusable, is_line_end,
  credentials, key_from, password_from, command_of, known_hosts_path, conclude, run_with,
  remote_shutdown_at, remote_shutdown,
}
use wol_secure_light_switch.Ssh.Output.{total, write_all-exceeded}

module _ (r : Remote) (h : Host) where
  -- The credential that the host's settings name: a key, or else a password, never both.
  abbrev pub IsCredential : Credential → Type 0
  IsCredential (public_key key) =
      (h.key_path ≢ [])
      × (h.password_file ≡ [])
      × (r.read_file h.key_path ≡ some key)
      × (r.parses_as_key key ≡ true)
  IsCredential (password p) =
      (h.key_path ≡ [])
      × (h.password_file ≢ [])
      × ((contents : Text) × (r.read_file h.password_file ≡ some contents)
          × (p ≡ trim_right is_line_end contents))
      × (p ≢ [])

  key_from-usable :
      (o : Option Text) (c : Credential)
      → key_from r o ≡ usable c
      → (key : Text) × (o ≡ some key) × (c ≡ public_key key) × (r.parses_as_key key ≡ true)
  key_from-usable none c e = absurd (cc e)
  key_from-usable (some key) c e = (key, refl, ground (arith, e), ground (arith, e))

  password_from-usable :
      (o : Option Text) (c : Credential)
      → password_from o ≡ usable c
      → (contents : Text) × (o ≡ some contents)
        × (c ≡ password (trim_right is_line_end contents))
        × (trim_right is_line_end contents ≢ [])
  password_from-usable none c e = absurd (cc e)
  password_from-usable (some contents) c e =
      (contents, refl, ground (arith, e), λ blank. ground (arith, e, blank))

  credentials-IsCredential : (c : Credential) → credentials r h ≡ usable c → IsCredential c
  unfolding credentials
  credentials-IsCredential c e = elim (Bool-cases (same h.key_path [])) [
    | inr key ↦ elim (Bool-cases (same h.password_file [])) [
      | inr both ↦ absurd (cc (rw (key, both, credentials) at e))
      | inl alone ↦
          let (k, read, is_key, parses) =
            key_from-usable (r.read_file h.key_path) c (rw (key, alone, credentials) at e) in
          rw is_key (λ p. ground (arith, p), ground arith, read, parses)
    ]
    | inl no_key ↦ elim (Bool-cases (same h.password_file [])) [
      | inl none_given ↦ absurd (cc (rw (no_key, none_given, credentials) at e))
      | inr given ↦
          let (contents, read, is_password, not_blank) =
            password_from-usable (r.read_file h.password_file) c
              (rw (no_key, given, credentials) at e) in
          rw is_password (ground arith, λ p. ground (arith, p), (contents, read, refl), not_blank)
    ]
  ]

  -- A session that ended well: the known hosts were read, the command ran to its end in time without
  -- an error, and its output was within the limit.
  pub record IsSuccess : Type 0 where
    pub credential : Credential
    pub is_credential : IsCredential credential
    pub known : r.is_known_hosts (known_hosts_path r) ≡ true
    pub writes : List ℕ
    pub ended :
        r.connect h.user credential (known_hosts_path r) (h.ip ++ codes ":22") (command_of h)
        ≡ ran false writes false
    pub within : total writes ≤ ssh_output_limit

  conclude-none :
      (c : Connection)
      → conclude c ≡ none
      → (writes : List ℕ) × (c ≡ ran false writes false) × (total writes ≤ ssh_output_limit)
  unfolding conclude
  conclude-none (dial_failed t) e = absurd (cc e)
  conclude-none deadline_failed e = absurd (cc e)
  conclude-none (handshake_failed t) e = absurd (cc e)
  conclude-none (session_failed t) e = absurd (cc e)
  conclude-none (ran t writes failed) e =
      let (told, _) = write_all-exceeded writes in
      (writes, ground (arith, e), ground (arith, e, told))

  -- If a remote shutdown reports no error, the host names exactly one source of credentials, which
  -- was read and is usable, the known hosts were read, and the command ran to its end in time,
  -- without an error and with at most 64 KiB of output.
  pub remote_shutdown-IsSuccess : remote_shutdown r h ≡ none → IsSuccess
  unfolding remote_shutdown remote_shutdown_at
  remote_shutdown-IsSuccess e = by_credentials (credentials r h) refl e
    where
      by_credentials :
          (c : Credentials)
          → credentials r h ≡ c
          → run_with r h (h.ip ++ codes ":22") c ≡ none
          → IsSuccess
      by_credentials (unusable x) at_c s = absurd (cc s)
      by_credentials (usable c) at_c s =
          let known : r.is_known_hosts (known_hosts_path r) ≡ true = ground (arith, s) in
          let (writes, ended, within) =
            conclude-none
              (r.connect h.user c (known_hosts_path r) (h.ip ++ codes ":22") (command_of h))
              (ground (arith, s, known)) in
          record {
            credential = c;
            is_credential = credentials-IsCredential c at_c;
            known = known;
            writes = writes;
            ended = ended;
            within = within;
          }
