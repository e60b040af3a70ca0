-- ===== src/Kernel.antt =====
-- The world outside the daemon as its route code sees it: netlink requests, commands that are run,
-- interface indices. The answers are those of a `Kernel`, which may depend on all that was asked
-- before; nothing is assumed of it. Methods that fail with a negative errno are actions of `Exec`.
pub mod Errno
pub mod Issues
pub mod Gives
pub mod Words
use platform_system_netd.Prelude.{
  ℕ, suc, ◌≡◌, Bool, true, false, Option, List, [], ◌∷◌, ◌++◌, String, ◌==◌, if◌then◌else◌,
}

pub data Action : Type 0 where
  new del : Action

pub data Family : Type 0 where
  inet inet6 : Family

-- An interface-name attribute: the bytes with their terminator, and the padding after them.
pub record Padded : Type 0 where
  pub name : Option String
  pub length : ℕ
  pub padding : ℕ

-- The attributes of an RTM_NEWRULE or RTM_DELRULE request. An attribute that the message leaves
-- out is `none`; with no table the rule's action is FR_ACT_UNREACHABLE.
pub record Rule : Type 0 where
  pub priority : ℕ
  pub table : Option ℕ
  pub selector : Option (ℕ × ℕ)
  pub uids : Option (ℕ × ℕ)
  pub iif : Padded
  pub oif : Padded

pub data RouteType : Type 0 where
  unicast unreachable throw : RouteType

pub data Scope : Type 0 where
  universe link : Scope

-- The attributes of an RTM_NEWROUTE or RTM_DELROUTE request.
pub record Route : Type 0 where
  pub table : ℕ
  pub type : RouteType
  pub scope : Scope
  pub family : Family
  pub destination : List ℕ
  pub prefix_length : ℕ
  pub ifindex : Option ℕ
  pub gateway : Option (List ℕ)

-- A word of a command line; numbers are printed with `0x%x` or `%u`, or with a minus sign.
pub data Word : Type 0 where
  text : String → Word
  hex decimal minus : ℕ → Word

pub data Call : Type 0 where
  ip_rule : Action → Family → Rule → Call
  ip_route : Action → Route → Call
  command : List Word → Call
  output_of : List Word → Call
  write_file : String → List Word → Call
  start : List (List Word) → Call
  stop : ℕ → Call
  send : ℕ → List Word → Call
  table_names : List (ℕ × String) → Call

-- A netlink exchange: a system call failed with an errno, or so many bytes came with an error.
pub data Reply : Type 0 where
  failed : ℕ → Reply
  received : ℕ → ℕ → Reply

-- `android_fork_execvp`: its own result, and how the child ended.
pub record Exit : Type 0 where
  pub res : ℕ
  pub exited : Bool
  pub status : ℕ

-- The answer to a call, given those before it. The family of an address that is neither IPv4 nor
-- IPv6 is `none`. An index is asked for at some moment, which the
-- calls and the lookups so far tell apart. `popen` gives a command's output, or none
-- if it cannot be run; `writes` and `takes` say whether a file opens and whether a write to it works,
-- `reads` what it holds if it opens. `pipe` gives the descriptor of its writing end; the child of a
-- `fork` has the process number after the one given, since none has the number 0; `sends` says
-- whether a write to a descriptor works.
pub record Kernel : Type 0 where
  pub netlink : List Call → Call → Reply
  pub execvp : List Call → Call → Exit
  pub if_nametoindex : List Call → ℕ → String → ℕ
  pub getaddrinfo : String → Option (Option Family × List ℕ)
  pub inet_pton : Family → String → Option (List ℕ)
  pub popen : List Call → List Word → Option String
  pub writes : List Call → String → Bool
  pub takes : List Call → String → Bool
  pub pipe : List Call → Option ℕ
  pub fork : List Call → Option ℕ
  pub sends : List Call → ℕ → Bool
  pub inet_aton : String → Option (List ℕ)
  pub reads : List Call → String → Option String
  pub property_get : List Call → String → Option String

-- What was asked so far, oldest first, and the cache of RouteController.
pub record World : Type 0 where
  pub calls : List Call
  pub lookups : ℕ
  pub interface_to_table : List (String × ℕ)

-- `err e` is the C value -e.
pub data Result {ℓ} (A : Type ℓ) : Type ℓ where
  ok : A → Result A
  err : ℕ → Result A

abbrev pub Exec {ℓ} : Type ℓ → Type ℓ
Exec A = World → Result A × World

abbrev pub Ret : Type 0
Ret = Exec (Unit {0})

-- A `return e` of an errno that may be zero.
abbrev pub result : ℕ → Result (Unit {0})
result e = if e == 0 then ok tt else err e

module _ {ℓ} {A : Type ℓ} where
  unfoldable pub pure : A → Exec A
  pure a w = (ok a, w)

  unfoldable pub raise : ℕ → Exec A
  raise e w = (err e, w)

  -- A step that asks nothing.
  unfoldable pub lift : Result A → Exec A
  lift r w = (r, w)

module _ {ℓ κ} {A : Type ℓ} {B : Type κ} where
  abbrev pub continue : (A → Exec B) → Result A × World → Result B × World
  continue f (ok a, w) = f a w
  continue f (err e, w) = (err e, w)

  -- `if (int ret = m) return ret;` and the rest.
  infixl 10 ◌>>=◌ ◌>>◌
  unfoldable pub ◌>>=◌ : Exec A → (A → Exec B) → Exec B
  ◌>>=◌ m f w = continue f (m w)

  abbrev pub ◌>>◌ : Exec A → Exec B → Exec B
  m >> n = m >>= λ _. n

-- One more call in the history.
abbrev pub record_call : Call → World → World
record_call c w = record w { calls = w.calls ++ c ∷ [] }
