-- ===== src/FileSystem/Listing.antt =====
-- `dir_read`: the directory is read one name at a time.
use ece391_computer_systems.Base.{
  ℕ, zero, suc, ◌+◌, ◌-◌, ◌≤◌, ◌<◌, ◌≡◌, ◌≢◌, ◌&&◌, ◌⊎◌, ltb, leb, if◌then◌else◌, Mem, store, arith,
  pos, le→ltb_false, ne→==_false, refl, lt→ltb,
}
use ece391_computer_systems.FileSystem.{
  Fs, Dentry, dentry_addr, name_length, put_bytes, read_name, read_dentry_by_index, dir_read,
}

-- `n` is the length of the name in an array of `32` characters.
pub record IsName (filename : ℕ → ℕ) (n : ℕ) : Type 0 where
  pub fits : n ≤ 32
  pub nonzero : (i : ℕ) → i < n → filename i ≢ 0
  pub ends : (n ≡ 32) ⊎ (filename n ≡ 0)

name_length_lem :
    (left : ℕ) (filename : ℕ → ℕ) (i n : ℕ)
    → IsName filename n
    → i ≤ n
    → left + i ≡ 32
    → name_length left filename i ≡ n
unfolding name_length
name_length_lem zero filename i n h l e = omega (arith, h.fits)
name_length_lem (suc left) filename i n h l e =
    ground (arith, h.nonzero i, h.ends, name_length_lem left filename (i + 1) n h)

pub put_bytes_lem :
    (m : Mem) (buf : ℕ) (string : ℕ → ℕ) (n a : ℕ)
    → put_bytes m buf string n a ≡ (if leb buf a && ltb a (buf + n) then string (a - buf) else m a)
unfolding put_bytes
put_bytes_lem m buf string zero a = ground arith
put_bytes_lem m buf string (suc n) a =
    ground (arith, put_bytes_lem (store m buf (string 0)) (buf + 1) (λ i. string (i + 1)) n a)

read_name_lem :
    (m : Mem) (buf n : ℕ) (filename : ℕ → ℕ)
    → 0 < n
    → IsName filename n
    → ((read_name m buf filename).0 ≡ pos n)
      × ((a : ℕ)
          → (read_name m buf filename).1 a
            ≡ (if leb buf a && ltb a (buf + n) then filename (a - buf) else m a))
unfolding read_name
read_name_lem m buf n filename p name =
    rw
      (
        ne→==_false (filename 0) 0 (name.nonzero 0 p),
        name_length_lem 32 filename 0 n name (omega arith) refl,
      )
      (refl, put_bytes_lem m buf filename n)

-- At a position of the directory whose entry has a name of `n` characters, `dir_read` returns
-- `n`, copies the name without a terminator to the buffer, and changes nothing else.
pub dir_read-entry :
    (f : Fs) (m : Mem) (buf offset n : ℕ) (dummy : Dentry)
    → offset ≤ 62
    → 0 < n
    → IsName (λ i. m (dentry_addr f offset + i)) n
    → ((dir_read f m buf offset dummy).0 ≡ pos n)
      × ((a : ℕ)
          → (dir_read f m buf offset dummy).1 a
            ≡ (if leb buf a && ltb a (buf + n) then m (dentry_addr f offset + (a - buf)) else m a))
unfolding dir_read read_dentry_by_index
dir_read-entry f m buf offset n dummy h p name =
    rw (le→ltb_false 62 offset h) (read_name_lem m buf n (λ i. m (dentry_addr f offset + i)) p name)

-- Behind the last index of the boot block, `dir_read` reads what its local variable held before
-- the call, whatever the directory holds.
pub dir_read-bad_index :
    (f : Fs) (m : Mem) (buf offset : ℕ) (dummy : Dentry)
    → 62 < offset
    → dir_read f m buf offset dummy ≡ read_name m buf dummy.filename
unfolding dir_read read_dentry_by_index
dir_read-bad_index f m buf offset dummy h = rw (lt→ltb 62 offset h)
