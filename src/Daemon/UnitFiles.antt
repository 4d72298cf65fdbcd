-- ===== src/Daemon/UnitFiles.antt =====
-- The texts of the two units of crates/unixd/src/install.rs on Linux. Words are UTF-8 texts, as bytes; what
-- `from_utf8_lossy` makes of other words is not modelled.
pub mod Quoting
use unixd.Prelude.{
  ℕ, Bool, true, false, not, ◌||◌, Bytes, ascii, List, [], ◌∷◌, ◌++◌, Option, none, some, Result,
  ok, err, nat_eq, list_eq, ◌==◌, if◌then◌else◌, ltb, length, lookup, insert, erase,
}

-- One character of an `ExecStart` word, escaped.
unfoldable pub escaped : ℕ → Bytes
escaped c =
    if c == b'\\' || c == b'"'
    then b'\\' ∷ c ∷ []
    else if c == b'%'
    then ascii "%%"
    else if c == b'$'
    then ascii "$$"
    else c ∷ []

unfoldable pub escape : Bytes → Bytes
unfolding escaped
escape [] = []
escape (c ∷ word) = escaped c ++ escape word

unfoldable pub quote : Bytes → Bytes
unfolding escape
quote word = b'"' ∷ escape word ++ b'"' ∷ []

-- The rest of the command line.
unfoldable pub quote_args : List Bytes → Bytes
unfolding quote
quote_args [] = []
quote_args (arg ∷ args) = b' ' ∷ quote arg ++ quote_args args

unfoldable pub exec_start : Bytes → List Bytes → Bytes
unfolding quote_args
exec_start program args = quote program ++ quote_args args

abbrev pub line : Bytes → Bytes
line text = text ++ 10 ∷ []

unfoldable pub socket_unit : Bytes → Bytes → Bytes
socket_unit label socket =
    line (ascii "[Unit]")
    ++ line (ascii "Description=" ++ label ++ ascii " socket")
    ++ line []
    ++ line (ascii "[Socket]")
    ++ line (ascii "ListenStream=" ++ socket)
    ++ line (ascii "SocketMode=0600")
    ++ line (ascii "DirectoryMode=0700")
    ++ line (ascii "Accept=no")
    ++ line (ascii "TriggerLimitIntervalSec=2")
    ++ line (ascii "TriggerLimitBurst=200")
    ++ line []
    ++ line (ascii "[Install]")
    ++ line (ascii "WantedBy=sockets.target")

unfoldable pub service_unit : Bytes → Bytes → Bytes
service_unit label exec =
    line (ascii "[Unit]")
    ++ line (ascii "Description=" ++ label)
    ++ line (ascii "Requires=" ++ label ++ ascii ".socket")
    ++ line (ascii "StartLimitIntervalSec=10")
    ++ line (ascii "StartLimitBurst=100")
    ++ line []
    ++ line (ascii "[Service]")
    ++ line (ascii "ExecStart=" ++ exec)
    ++ line (ascii "StandardInput=socket")
    ++ line (ascii "StandardOutput=journal")
    ++ line (ascii "StandardError=journal")
