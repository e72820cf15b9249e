-- ===== src/Examples.antt =====
-- Concrete frames, and a cipher and a hash that satisfy what the packages document.
pub mod Mac
pub mod Addresses
pub mod Join
pub mod Frame
pub mod Codes
pub mod Phy
pub mod Band
pub mod Applayer
use lorawan.Prelude.{
  ℕ, [], ◌∷◌, arith, ok, refl, take, ◌++◌, replicate, ◌∙◌, length, ◌≡◌, length-take, length-append,
}
use lorawan.Prelude.Bytes.{Bytes, IsArray}
use lorawan.Phy.Primitives.{Aes, Cmac, IsAes, IsCmac}
use lorawan.Ident.{DevAddr}
use lorawan.Phy.Keystream.{xor_bytes}
use lorawan.Phy.Keystream.Involution.{length-xor_bytes, xor_bytes_cancel, xor_bytes-All}

abbrev pub test_key : Bytes
test_key = 1 ∷ 2 ∷ 3 ∷ 4 ∷ 5 ∷ 6 ∷ 7 ∷ 8 ∷ 9 ∷ 10 ∷ 11 ∷ 12 ∷ 13 ∷ 14 ∷ 15 ∷ 16 ∷ []

abbrev pub test_addr : DevAddr
test_addr = 1 ∷ 2 ∷ 3 ∷ 4 ∷ []

abbrev pub test_mic : Bytes
test_mic = 0xaa ∷ 0xbb ∷ 0xcc ∷ 0xdd ∷ []

pub test_key-IsArray : IsArray 16 test_key
test_key-IsArray = (refl, ground arith)

pub test_addr-IsArray : IsArray 4 test_addr
test_addr-IsArray = (refl, ground arith)

pub test_mic-IsArray : IsArray 4 test_mic
test_mic-IsArray = (refl, ground arith)

-- The exclusive or with sixteen fixed bytes, as a block cipher.
abbrev pub xor_aes : Aes
xor_aes = record {
  Block = Unit {0};
  new_cipher = λ key. ok tt;
  block_size = λ b. 16;
  encrypt = λ b x. xor_bytes x test_key;
  decrypt = λ b x. xor_bytes x test_key;
}

xor-IsArray : (x : Bytes) → IsArray 16 x → IsArray 16 (xor_bytes x test_key)
xor-IsArray x h =
    (length-xor_bytes x test_key ∙ h.0, xor_bytes-All x test_key h.1 (test_key-IsArray.1))

pub xor_aes-IsAes : IsAes xor_aes
xor_aes-IsAes = record {
  accepts = λ key h. (tt, refl);
  sixteen = λ b. refl;
  encrypt-IsArray = λ b x h. xor-IsArray x h;
  decrypt-IsArray = λ b x h. xor-IsArray x h;
  encrypt-decrypt = λ b x h. xor_bytes_cancel x test_key;
  decrypt-encrypt = λ b x h. xor_bytes_cancel x test_key;
}

-- The bytes written, filled up to sixteen, as a hash.
abbrev pub test_cmac : Cmac
test_cmac = record {
  Hash = Bytes;
  new = λ key. ok [];
  write = λ h bs. ok (h ++ bs);
  sum = λ h. take 16 (h ++ replicate 16 0);
}

sum_size : (h : Bytes) → length (take 16 (h ++ replicate 16 0)) ≡ 16
sum_size h =
    let zeros : Bytes = replicate 16 0 in
    omega (arith, length-take 16 (h ++ zeros), length-append h zeros)

pub test_cmac-IsCmac : IsCmac test_cmac
test_cmac-IsCmac = record {
  accepts = λ key h. ([], refl);
  writes = λ h bs. (h ++ bs, refl);
  sixteen = λ h. sum_size h;
}
