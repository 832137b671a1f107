-- ===== src/Http/Socket.antt =====
-- What server/hoxSocketAPI.cpp reads from a socket. The input is all that arrives; `ending` is what
-- st_read tells after it: `ok` where the connection was closed, else the result for its error.
use hox_server.Prelude.{ℕ, suc, ◌==◌, leb, [], ◌∷◌, if◌then◌else◌}
use hox_server.Table.State.{Text, Code, ok, err}

-- hoxNETWORK_MAX_MSG_SIZE.
abbrev pub network_max_msg_size : ℕ
network_max_msg_size = 4096

-- The result of a call, what it has read, and the input that is left.
pub record Read : Type 0 where
  pub code : Code
  pub text : Text
  pub input : Text

abbrev pub make_read : Code → Text → Text → Read
make_read c s t = record { code = c; text = s; input = t }

abbrev pub read_before : ℕ → Read → Read
read_before c r = record r { text = c ∷ r.text }

-- The loop of read_line, with the size that the line has reached.
unfoldable pub read_chars : Code → ℕ → Text → Read
read_chars ending size [] = make_read ending [] []
read_chars ending size (c ∷ s) =
    let rest = read_chars ending (suc size) s in
    if c == b'\n'
    then make_read ok [] s
    else if leb network_max_msg_size (suc size)
    then make_read err (c ∷ []) s
    else read_before c rest

unfoldable pub read_line : Code → Text → Read
unfolding read_chars
read_line ending s = read_chars ending 0 s

-- The loop of read_nbytes, with the size that the result has reached.
unfoldable pub read_bytes : ℕ → ℕ → Text → Read
read_bytes n size [] = make_read err [] []
read_bytes n size (c ∷ s) =
    let rest = read_bytes n (suc size) s in
    if suc size == n then make_read ok (c ∷ []) s else read_before c rest

unfoldable pub read_nbytes : ℕ → Text → Read
unfolding read_bytes
read_nbytes n s = read_bytes n 0 s
