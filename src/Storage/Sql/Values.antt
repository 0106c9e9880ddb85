-- ===== src/Storage/Sql/Values.antt =====
-- The tables of internal/storage/migrations with their columns, and the values of a row.
use googlysync.Prelude.{
  ℕ, ◌+◌, Bool, true, false, ◌&&◌, ◌||◌, ◌≡◌, refl, arith, [], ◌∷◌, ◌==◌, leb, if◌then◌else◌, ℤ,
  pos, negsuc, Str, str_eq,
}
use googlysync.Prelude.Order.{Order, str_leb, str_leb_total, str_leb_trans}

pub data Table : Type 0 where
  accounts token_refs sync_state files folders shared_drives pending_ops : Table

pub data Column : Type 0 where
  id email display_name is_primary created_at updated_at account_id key_id token_type scope : Column
  expiry start_page_token last_sync_at last_error paused path drive_id etag checksum size : Column
  modified_at parent_id name op_type state retry_count : Column

pub data Value : Type 0 where
  null : Value
  text : Str → Value
  integer : ℤ → Value

abbrev pub Row : Type 0
Row = Column → Value

-- to compare tables and columns
abbrev pub table_code : Table → ℕ
table_code accounts = 0
table_code token_refs = 1
table_code sync_state = 2
table_code files = 3
table_code folders = 4
table_code shared_drives = 5
table_code pending_ops = 6

abbrev pub same_table : Table → Table → Bool
same_table t u = table_code t == table_code u

abbrev column_code : Column → ℕ
column_code id = 0
column_code email = 1
column_code display_name = 2
column_code is_primary = 3
column_code created_at = 4
column_code updated_at = 5
column_code account_id = 6
column_code key_id = 7
column_code token_type = 8
column_code scope = 9
column_code expiry = 10
column_code start_page_token = 11
column_code last_sync_at = 12
column_code last_error = 13
column_code paused = 14
column_code path = 15
column_code drive_id = 16
column_code etag = 17
column_code checksum = 18
column_code size = 19
column_code modified_at = 20
column_code parent_id = 21
column_code name = 22
column_code op_type = 23
column_code state = 24
column_code retry_count = 25

abbrev pub same_column : Column → Column → Bool
same_column c d = column_code c == column_code d

-- the primary key of each table
abbrev pub key_of : Table → Column
key_of token_refs = account_id
key_of sync_state = account_id
key_of t = id

-- the tables whose rows name their account by a foreign key with ON DELETE CASCADE
abbrev pub depends_on_account : Table → Bool
depends_on_account token_refs = true
depends_on_account sync_state = true
depends_on_account pending_ops = true
depends_on_account folders = true
depends_on_account t = false

int_leb : ℤ → ℤ → Bool
int_leb (pos a) (pos b) = leb a b
int_leb (pos a) (negsuc b) = false
int_leb (negsuc a) (pos b) = true
int_leb (negsuc a) (negsuc b) = leb b a

-- ORDER BY: NULL comes first, then integers, then texts by their bytes.
unfoldable pub value_leb : Value → Value → Bool
unfolding int_leb
value_leb null w = true
value_leb (integer a) null = false
value_leb (integer a) (integer b) = int_leb a b
value_leb (integer a) (text t) = true
value_leb (text s) null = false
value_leb (text s) (integer b) = false
value_leb (text s) (text t) = str_leb s t

int_leb_total : (a b : ℤ) → int_leb a b ≡ false → int_leb b a ≡ true
unfolding int_leb
int_leb_total (pos a) (pos b) h = ground arith
int_leb_total (pos a) (negsuc b) h = refl
int_leb_total (negsuc a) (pos b) h = cc
int_leb_total (negsuc a) (negsuc b) h = ground arith

int_leb_trans : (a b c : ℤ) → int_leb a b ≡ true → int_leb b c ≡ true → int_leb a c ≡ true
unfolding int_leb
int_leb_trans a b c h k = ground arith

pub value_leb_total : (v w : Value) → value_leb v w ≡ false → value_leb w v ≡ true
unfolding value_leb
value_leb_total null w h = cc
value_leb_total (integer a) null h = refl
value_leb_total (integer a) (integer b) h = int_leb_total a b h
value_leb_total (integer a) (text t) h = cc
value_leb_total (text s) null h = refl
value_leb_total (text s) (integer b) h = refl
value_leb_total (text s) (text t) h = str_leb_total s t h

pub value_leb_trans :
    (u v w : Value) → value_leb u v ≡ true → value_leb v w ≡ true → value_leb u w ≡ true
unfolding value_leb
value_leb_trans null v w h k = refl
value_leb_trans (integer a) null w h k = cc
value_leb_trans (integer a) (integer b) null h k = cc
value_leb_trans (integer a) (integer b) (integer c) h k = int_leb_trans a b c h k
value_leb_trans (integer a) (integer b) (text t) h k = refl
value_leb_trans (integer a) (text s) null h k = cc
value_leb_trans (integer a) (text s) (integer c) h k = cc
value_leb_trans (integer a) (text s) (text t) h k = refl
value_leb_trans (text s) null w h k = cc
value_leb_trans (text s) (integer b) w h k = cc
value_leb_trans (text s) (text t) null h k = cc
value_leb_trans (text s) (text t) (integer c) h k = cc
value_leb_trans (text s) (text t) (text u) h k = str_leb_trans s t u h k

abbrev pub by_column : Column → Order Row
by_column c = record {
  le = λ r s. value_leb (r c) (s c);
  total = λ r s h. value_leb_total (r c) (s c) h;
  trans = λ r s t h k. value_leb_trans (r c) (s c) (t c) h k;
}

abbrev pub is_text : Str → Value → Bool
is_text s null = false
is_text s (integer n) = false
is_text s (text t) = str_eq t s

abbrev pub backslash : ℕ
backslash = 92

-- the bytes that a pattern does not take as they are
abbrev pub is_special : ℕ → Bool
is_special c = c == backslash || (c == b'%' || c == b'_')

-- the other case of an ASCII letter
abbrev pub lower : ℕ → ℕ
lower c = if leb b'A' c && leb c b'Z' then c + 32 else c

abbrev pub match_head : ℕ → Str → (Str → Bool) → Bool
match_head c [] more = false
match_head c (d ∷ s) more = let rest = more s in lower c == lower d && rest

pub same_table_refl : (t : Table) → same_table t t ≡ true
same_table_refl t = ground arith
