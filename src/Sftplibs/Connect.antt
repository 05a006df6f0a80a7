-- ===== src/Sftplibs/Connect.antt =====
-- ConnectSftpServer and the three getConfigFor… functions of sftplibs/sftplibs.go. The vendored
-- packages ssh and sftp are the argument `Ssh`; key files are read through `read_file`.
pub mod Choice
use ugoku.Base.{
  ℕ, ◌≡◌, ℤ, pos, negsuc, Text, codes, same, decimal, Bool, true, false, not, ◌&&◌, Option, none,
  some, List, [], ◌∷◌, ◌++◌, Error, Result, ok, err, panic, ◌>>=◌, suc, if◌then◌else◌,
}

-- `ssh.PublicKeys(signer)` and `ssh.Password(password)`.
pub data AuthMethod (Signer : Type 0) : Type 0 where
  public_keys : Signer → AuthMethod Signer
  password_auth : Text → AuthMethod Signer

pub data HostKeyCallback : Type 0 where
  insecure_ignore_host_key : HostKeyCallback

pub record ClientConfig (Signer : Type 0) : Type 0 where
  pub user : Text
  pub auth : List (AuthMethod Signer)
  pub host_key_callback : HostKeyCallback

-- `ParsePrivateKey`, `ParseAuthorizedKey`, `NewCertSigner`, `Dial` and `NewClient`. A dynamic type
-- assertion `key.(*ssh.Certificate)` is `as_certificate`, with `none` where it fails.
pub record Ssh (W : Type 0) : Type 1 where
  pub Signer : Type 0
  pub PublicKey : Type 0
  pub Certificate : Type 0
  pub SshClient : Type 0
  pub SftpClient : Type 0
  pub parse_private_key : Text → Result Signer
  pub parse_authorized_key : Text → Result PublicKey
  pub as_certificate : PublicKey → Option Certificate
  pub new_cert_signer : Certificate → Signer → Result Signer
  pub dial : Text → ClientConfig Signer → W → Result SshClient × W
  pub new_client : SshClient → W → Result SftpClient × W

-- `fmt.Sprintf("%s:%d", host_ip, host_port)`
abbrev signed : ℤ → Text
signed (pos n) = decimal n
signed (negsuc n) = b'-' ∷ decimal (suc n)

unfoldable pub address : Text → ℤ → Text
unfolding decimal
address host_ip host_port = host_ip ++ b':' ∷ signed host_port

module _ {W : Type 0} (ssh : Ssh W) (read_file : Text → Result Text) where
  open ssh use {
    Signer, PublicKey, Certificate, SshClient, SftpClient, parse_private_key, parse_authorized_key,
    as_certificate, new_cert_signer, dial, new_client,
  }

  abbrev config_with : Text → AuthMethod Signer → ClientConfig Signer
  config_with user method = record {
    user = user;
    auth = method ∷ [];
    host_key_callback = insecure_ignore_host_key;
  }

  -- A failed type assertion panics.
  abbrev assert_certificate : PublicKey → Result Certificate
  assert_certificate key = elim (as_certificate key) [ none ↦ panic | some cert ↦ ok cert ]

  unfoldable pub get_config_for_cert_login : Text → Text → Text → Result (ClientConfig Signer)
  get_config_for_cert_login user keyfile certfile = do
    pvt_key_bts ← read_file keyfile
    signer ← parse_private_key pvt_key_bts
    cert_bts ← read_file certfile
    key ← parse_authorized_key cert_bts
    cert ← assert_certificate key
    cert_signer ← new_cert_signer cert signer
    ok (config_with user (public_keys cert_signer))

  unfoldable pub get_config_for_key_login : Text → Text → Result (ClientConfig Signer)
  get_config_for_key_login user keyfile = do
    key ← read_file keyfile
    signer ← parse_private_key key
    ok (config_with user (public_keys signer))

  unfoldable pub get_config_for_password_login : Text → Text → Result (ClientConfig Signer)
  get_config_for_password_login user password = ok (config_with user (password_auth password))

  -- The `if` that chooses among the three.
  choose_config : Text → Text → Text → Text → Result (ClientConfig Signer)
  unfolding get_config_for_cert_login get_config_for_key_login get_config_for_password_login
  choose_config user password keyfile certfile =
      if not (same keyfile []) && not (same certfile [])
      then get_config_for_cert_login user keyfile certfile
      else if not (same keyfile [])
      then get_config_for_key_login user keyfile
      else get_config_for_password_login user password

  open_session : SshClient → Result SftpClient × W → Result (SshClient × SftpClient) × W
  open_session client (ok sftp, w) = (ok (client, sftp), w)
  open_session client (err e, w) = (err e, w)
  open_session client (panic, w) = (panic, w)

  after_dial : Result SshClient × W → Result (SshClient × SftpClient) × W
  unfolding open_session
  after_dial (ok client, w) = open_session client (new_client client w)
  after_dial (err e, w) = (err e, w)
  after_dial (panic, w) = (panic, w)

  after_config : Text → Result (ClientConfig Signer) → W → Result (SshClient × SftpClient) × W
  unfolding after_dial
  after_config ipport_str (ok config) w = after_dial (dial ipport_str config w)
  after_config ipport_str (err e) w = (err e, w)
  after_config ipport_str panic w = (panic, w)

  unfoldable pub connect_sftp_server :
      Text → ℤ → Text → Text → Text → Text → W → Result (SshClient × SftpClient) × W
  unfolding choose_config after_config address
  connect_sftp_server host_ip host_port user password keyfile certfile w =
      after_config (address host_ip host_port) (choose_config user password keyfile certfile) w
