-- ===== src/Storage/Contexts.antt =====
-- internal/storage/memory.go in one process: the error of its context is part of the state, so that it
-- can be cancelled while it runs; and context.WithoutCancel.
use deb_s3_go.Base.{Option, none, some, Error, Result}
use deb_s3_go.Storage.Objects.{Store}
use deb_s3_go.Storage.Memory.{MemoryStore, Env, get, head, put, delete, copy, list, delete_if_match}

-- What is stored, and the error of the context.
abbrev pub Process : Type 0
Process = MemoryStore × Option Error

abbrev pub under : Env → Option Error → Env
under env c = record env { ctx = c }

abbrev pub carried : {A : Type 0} → Option Error → Result A × MemoryStore → Result A × Process
carried c r = (r.0, (r.1, c))

-- The in-memory store, called with the context that `seen` makes of the one of the process.
abbrev process_store : Env → (Option Error → Option Error) → Store Process
process_store env seen = record {
  get = λ key x. carried x.1 (get (under env (seen x.1)) key x.0);
  head = λ key x. carried x.1 (head (under env (seen x.1)) key x.0);
  put = λ key body options x. carried x.1 (put (under env (seen x.1)) key body options x.0);
  delete = λ key x. carried x.1 (delete (under env (seen x.1)) key x.0);
  copy = λ from to options x. carried x.1 (copy (under env (seen x.1)) from to options x.0);
  list = λ prefix x. carried x.1 (list (under env (seen x.1)) prefix x.0);
  delete_if_match =
      some (λ key etag x. carried x.1 (delete_if_match (under env (seen x.1)) key etag x.0));
}

abbrev pub cancellable : Env → Store Process
cancellable env = process_store env (λ c. c)

abbrev pub uncancelled : Env → Store Process
uncancelled env = process_store env (λ c. none)
