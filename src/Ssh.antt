-- ===== src/Ssh.antt =====
-- backend/internal/sshrunner/ssh.go: the remote shutdown and the counter of its output. The SSH
-- library and the connection are the record `Remote`; from the dial to the end of the command, the
-- first step that fails, or the run of the command, is a `Connection`. `timed_out` is whether the
-- context's deadline had passed.
pub mod Output
pub mod Success
use Prim.Native.String.{String}
use wol_secure_light_switch.Prelude.{
  ℕ, ◌+◌, ◌*◌, ◌≡◌, Bool, true, not, ◌&&◌, ◌||◌, Option, none, some, List, [], ◌∷◌, ◌++◌, Text,
  codes, same, ltb, ◌==◌, if◌then◌else◌, trim_right,
}
use wol_secure_light_switch.Config.{Host}

abbrev pub ssh_output_limit : ℕ
ssh_output_limit = 64 * 1024

pub record SshOutputCounter : Type 0 where
  pub bytes : ℕ
  pub exceeded : Bool

abbrev pub new_counter : SshOutputCounter
new_counter = record { bytes = 0; exceeded = Bool.false }

-- `Write` of a number of bytes; `len(p) > limit-bytes` with the subtraction moved to the other side.
unfoldable pub write : SshOutputCounter → ℕ → SshOutputCounter
write o n =
    if ltb ssh_output_limit (n + o.bytes)
    then record { bytes = ssh_output_limit; exceeded = true }
    else record o { bytes = o.bytes + n }

unfoldable pub write_all : SshOutputCounter → List ℕ → SshOutputCounter
unfolding write
write_all o [] = o
write_all o (n ∷ ns) = write_all (write o n) ns

pub data Credential : Type 0 where
  public_key : Text → Credential
  password : Text → Credential

pub data Connection : Type 0 where
  dial_failed : (timed_out : Bool) → Connection
  deadline_failed : Connection
  handshake_failed : (timed_out : Bool) → Connection
  session_failed : (timed_out : Bool) → Connection
  ran : (timed_out : Bool) (writes : List ℕ) (run_failed : Bool) → Connection

pub record Remote : Type 0 where
  pub read_file : Text → Option Text
  pub parses_as_key : Text → Bool
  -- the variable SSH_KNOWN_HOSTS_FILE, empty if unset
  pub known_hosts_file : Text
  pub is_known_hosts : Text → Bool
  pub connect :
      (user : Text) (credential : Credential) (known_hosts address command : Text) → Connection

pub data Credentials : Type 0 where
  usable : Credential → Credentials
  unusable : String → Credentials

abbrev pub key_from : Remote → Option Text → Credentials
key_from r none = unusable "SSH key unavailable"
key_from r (some key) =
    if r.parses_as_key key then usable (public_key key) else unusable "SSH key invalid"

abbrev pub is_line_end : ℕ → Bool
is_line_end c = c == 13 || c == 10

abbrev pub password_from : Option Text → Credentials
password_from none = unusable "SSH password configuration unavailable"
password_from (some contents) =
    if same (trim_right is_line_end contents) []
    then unusable "SSH password configuration is empty"
    else usable (password (trim_right is_line_end contents))

-- The only authentication method.
unfoldable pub credentials : Remote → Host → Credentials
credentials r h =
    if not (same h.key_path []) && not (same h.password_file [])
    then unusable "invalid SSH authentication configuration"
    else if not (same h.key_path [])
    then key_from r (r.read_file h.key_path)
    else if not (same h.password_file [])
    then password_from (r.read_file h.password_file)
    else unusable "SSH authentication is not configured"

unfoldable pub command_of : Host → Text
command_of h = if same h.cmd [] then codes "sudo -n /usr/sbin/poweroff" else h.cmd

unfoldable pub known_hosts_path : Remote → Text
known_hosts_path r =
    if same r.known_hosts_file [] then codes "data/.ssh/known_hosts" else r.known_hosts_file

abbrev pub timeout_or : Bool → String → String
timeout_or timed_out e = if timed_out then "SSH operation timed out" else e

-- `none` is the nil error.
unfoldable pub conclude : Connection → Option String
unfolding write_all
conclude (dial_failed timed_out) = some (timeout_or timed_out "SSH connection failed")
conclude deadline_failed = some "SSH connection deadline failed"
conclude (handshake_failed timed_out) = some (timeout_or timed_out "SSH connection failed")
conclude (session_failed timed_out) = some (timeout_or timed_out "SSH session failed")
conclude (ran timed_out writes run_failed) =
    if timed_out
    then some "SSH operation timed out"
    else if (write_all new_counter writes).exceeded
    then some "SSH output limit exceeded"
    else if run_failed
    then some "SSH command failed"
    else none

abbrev pub run_with : Remote → Host → Text → Credentials → Option String
run_with r h address (unusable e) = some e
run_with r h address (usable c) =
    if not (r.is_known_hosts (known_hosts_path r))
    then some "SSH host key configuration unavailable"
    else conclude (r.connect h.user c (known_hosts_path r) address (command_of h))

unfoldable pub remote_shutdown_at : Remote → Host → Text → Option String
unfolding credentials conclude
remote_shutdown_at r h address = run_with r h address (credentials r h)

unfoldable pub remote_shutdown : Remote → Host → Option String
remote_shutdown r h = remote_shutdown_at r h (h.ip ++ codes ":22")
