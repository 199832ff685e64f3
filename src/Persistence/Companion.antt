-- ===== src/Persistence/Companion.antt =====
-- src/companion.rs: the refusal of an anomalous write-ahead log, over the file system's answers.

use secure_messenger_lab.Prelude.{
  ℕ, zero, suc, ◌<◌, ◌≡◌, refl, Bool, true, false, ◌&&◌, Option, none, some, [], ◌∷◌, ◌++◌, ltb,
  ◌==◌, ◌⊎◌, inl, inr, arith, Bool-cases, ◌↔◌,
}
use secure_messenger_lab.Errors.{Result, ok, err, storage, ◌>>=◌}
use secure_messenger_lab.Bytes.{Bytes, ascii, bytes_eq}

-- `std::io::Error`, by the kinds that the code tells apart.
pub data IoError : Type 0 where
  not_found unexpected_eof other_error : IoError

pub data Io (A : Type 0) : Type 0 where
  done : A → Io A
  failed : IoError → Io A

-- What `std::fs` answers; a path is its bytes.
pub record FileSystem : Type 0 where
  pub canonicalize : Bytes → Option Bytes
  pub metadata_len : Bytes → Io ℕ
  -- `metadata.is_file()`, of what `metadata` finds
  pub is_file : Bytes → Bool
  -- `path.to_str()`: none if the path is not UTF-8
  pub to_str : Bytes → Option Bytes
  -- `File::open`, then `read_exact` of a 20-byte header
  pub open_file : Bytes → Bool
  pub read_header : Bytes → Io Bytes

abbrev pub sqlite_magic : Bytes
sqlite_magic = ascii "SQLite format 3" ++ 0 ∷ []

-- The byte at an index of the header, which is in range.
unfoldable pub byte_at : ℕ → Bytes → ℕ
byte_at n [] = 0
byte_at zero (x ∷ xs) = x
byte_at (suc k) (x ∷ xs) = byte_at k xs

unfoldable pub take : ℕ → Bytes → Bytes
take n [] = []
take zero (x ∷ xs) = []
take (suc k) (x ∷ xs) = x ∷ take k xs

unfoldable pub nonempty_companion : FileSystem → Bytes → Bytes → Result Bool
nonempty_companion fs path suffix = elim (fs.metadata_len (path ++ suffix)) [
  | done len ↦ ok (ltb 0 len)
  | failed not_found ↦ ok false
  | failed unexpected_eof ↦ err storage
  | failed other_error ↦ err storage
]

-- `header[..16] == *b"SQLite format 3\0" && header[18] == 2 && header[19] == 2`
abbrev pub declares_wal : Bytes → Bool
declares_wal header =
    bytes_eq (take 16 header) sqlite_magic && ((byte_at 18 header == 2) && (byte_at 19 header == 2))

unfoldable pub database_header_uses_wal : FileSystem → Bytes → Result Bool
database_header_uses_wal fs path = elim (fs.open_file path) [
  | false ↦ err storage
  | true ↦ elim (fs.read_header path) [
    | done header ↦ ok (declares_wal header)
    | failed unexpected_eof ↦ ok false
    | failed not_found ↦ err storage
    | failed other_error ↦ err storage
  ]
]

unfoldable pub resolve : FileSystem → Bytes → Bytes
resolve fs path = elim (fs.canonicalize path) [ some real ↦ real | none ↦ path ]

unfoldable pub reject_anomalous_wal : FileSystem → Bytes → Result (Unit {0})
reject_anomalous_wal fs path = do
  let resolved = resolve fs path
  planted ← nonempty_companion fs resolved (ascii "-wal")
  elim planted [
    | false ↦ ok tt
    | true ↦ do
      wal ← database_header_uses_wal fs resolved
      elim wal [ true ↦ ok tt | false ↦ err storage ]
  ]

module _ (fs : FileSystem) (path : Bytes) where
  -- No log lies beside the database, or an empty one.
  abbrev pub HasNoLog : Type 0
  HasNoLog =
      (fs.metadata_len (path ++ ascii "-wal") ≡ failed not_found)
      ⊎ (fs.metadata_len (path ++ ascii "-wal") ≡ done 0)

  -- A log that is not empty lies beside a database whose own header declares WAL mode.
  pub record HasLiveLog : Type 0 where
    pub size : ℕ
    pub log : fs.metadata_len (path ++ ascii "-wal") ≡ done size
    pub nonempty : 0 < size
    pub header : Bytes
    pub opens : fs.open_file path ≡ true
    pub reads : fs.read_header path ≡ done header
    pub declared : declares_wal header ≡ true

  nonempty_companion-cases :
      (HasNoLog × (nonempty_companion fs path (ascii "-wal") ≡ ok false))
      ⊎ ((nonempty_companion fs path (ascii "-wal") ≡ err storage)
          ⊎ ((size : ℕ) × (fs.metadata_len (path ++ ascii "-wal") ≡ done size)
              × (0 < size)
              × (nonempty_companion fs path (ascii "-wal") ≡ ok true)))
  unfolding nonempty_companion
  nonempty_companion-cases = go (fs.metadata_len (path ++ ascii "-wal")) refl
    where
      go :
          (answer : Io ℕ)
          → fs.metadata_len (path ++ ascii "-wal") ≡ answer
          → (HasNoLog × (nonempty_companion fs path (ascii "-wal") ≡ ok false))
            ⊎ ((nonempty_companion fs path (ascii "-wal") ≡ err storage)
                ⊎ ((size : ℕ) × (fs.metadata_len (path ++ ascii "-wal") ≡ done size)
                    × (0 < size)
                    × (nonempty_companion fs path (ascii "-wal") ≡ ok true)))
      go (done zero) e = inl (inr e, rw (nonempty_companion, e))
      go (done (suc n)) e = inr (inr (suc n, e, omega arith, ground (arith, e)))
      go (failed not_found) e = inl (inl e, rw (nonempty_companion, e))
      go (failed unexpected_eof) e = inr (inl (rw (nonempty_companion, e)))
      go (failed other_error) e = inr (inl (rw (nonempty_companion, e)))

  database_header_uses_wal-true :
      database_header_uses_wal fs path ≡ ok true
      → (header : Bytes) × (fs.open_file path ≡ true)
        × (fs.read_header path ≡ done header)
        × (declares_wal header ≡ true)
  unfolding database_header_uses_wal
  database_header_uses_wal-true e = elim (Bool-cases (fs.open_file path)) [
    | inr shut ↦ absurd (ground arith)
    | inl opens ↦ go (fs.read_header path) refl (ground arith) opens
  ]
    where
      go :
          (answer : Io Bytes)
          → fs.read_header path ≡ answer
          → (elim answer [
            | done header ↦ ok (declares_wal header)
            | failed unexpected_eof ↦ ok false
            | failed not_found ↦ err storage
            | failed other_error ↦ err storage
          ])
            ≡ ok true
          → fs.open_file path ≡ true
          → (header : Bytes) × (fs.open_file path ≡ true)
            × (fs.read_header path ≡ done header)
            × (declares_wal header ≡ true)
      go (done header) p q opens = (header, opens, p, ground arith)
      go (failed unexpected_eof) p q opens = absurd (ground arith)
      go (failed not_found) p q opens = absurd (ground arith)
      go (failed other_error) p q opens = absurd (ground arith)

  pub live_log :
      nonempty_companion fs path (ascii "-wal") ≡ ok true
      → database_header_uses_wal fs path ≡ ok true
      → HasLiveLog
  live_log planted declares = elim nonempty_companion-cases [
    | inl (_, no_log) ↦ absurd (ground arith)
    | inr (inl refused) ↦ absurd (ground arith)
    | inr (inr (size, log, nonempty, _)) ↦
        let (header, opens, reads, declared) = database_header_uses_wal-true declares in
        record {
          size = size;
          log = log;
          nonempty = nonempty;
          header = header;
          opens = opens;
          reads = reads;
          declared = declared;
        }
  ]

-- `reject_anomalous_wal` accepts a path exactly when, at its resolved name, no log lies beside the
-- database or an empty one, or a log that is not empty lies beside a database that can be read and
-- whose own header declares WAL mode.
pub reject_anomalous_wal_exact :
    (fs : FileSystem) (path : Bytes)
    → (reject_anomalous_wal fs path ≡ ok tt)
      ↔ (HasNoLog fs (resolve fs path) ⊎ HasLiveLog fs (resolve fs path))
unfolding reject_anomalous_wal nonempty_companion database_header_uses_wal
reject_anomalous_wal_exact fs path = (accepted, accepts)
  where
    accepted :
        reject_anomalous_wal fs path ≡ ok tt
        → HasNoLog fs (resolve fs path) ⊎ HasLiveLog fs (resolve fs path)
    accepted e = elim (nonempty_companion-cases fs (resolve fs path)) [
      | inl (no_log, _) ↦ inl no_log
      | inr (inl refused) ↦ absurd (ground arith)
      | inr (inr (size, log, nonempty, planted)) ↦
          inr (live_log fs (resolve fs path) planted (ground (arith, planted)))
    ]

    accepts :
        HasNoLog fs (resolve fs path) ⊎ HasLiveLog fs (resolve fs path)
        → reject_anomalous_wal fs path ≡ ok tt
    accepts (inl (inl e)) = ground (arith, e)
    accepts (inl (inr e)) = ground (arith, e)
    accepts (inr live) =
        ground (arith, live.log, live.nonempty, live.opens, live.reads, live.declared)
