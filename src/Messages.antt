-- ===== src/Messages.antt =====
-- messages/messages.c, the encoders and decoders generated from messages/messages.asn1, over the
-- functions of the asn1scc run-time that they call. An octet string is the list of its `nCount`
-- bytes; a decoder that fails leaves what was in the array before, which is an argument.
pub mod Runtime
pub mod Encoding
pub mod Decoding
pub mod RoundTrip
pub mod Forwarding
use muxer.Base.{
  ℕ, zero, suc, ◌-◌, ◌==◌, Bool, true, false, ◌&&◌, leb, List, [], ◌∷◌, if◌then◌else◌, length, take,
  drop, replicate, ℤ, pos, negsuc,
}
use muxer.Pdu.{buffer_ksize}
use muxer.State.{InputType, OutputType}
use muxer.Protocol.{Codec}

-- `BitStream` of messages/asn1crt.h.
pub record BitStream : Type 0 where
  pub buf : List ℕ
  pub count : ℕ
  pub current_byte : ℕ
  pub current_bit : ℕ

-- The functions of the run-time that the generated code calls. A decoder gives its flag, the value,
-- and the stream.
pub record BitCoding : Type 0 where
  pub encode_constraint_whole_number : BitStream → ℤ → ℤ → ℤ → BitStream
  pub encode_unconstraint_whole_number : BitStream → ℤ → BitStream
  pub append_byte0 : BitStream → ℕ → BitStream
  pub decode_constraint_whole_number : BitStream → ℤ → ℤ → Bool × ℤ × BitStream
  pub decode_unconstraint_whole_number : BitStream → Bool × ℤ × BitStream
  pub read_byte : BitStream → Bool × ℕ × BitStream

abbrev pub err_insufficient_data : ℕ
err_insufficient_data = 101

abbrev pub err_output_type_result : ℕ
err_output_type_result = 1001

abbrev pub err_output_type_command : ℕ
err_output_type_command = 1002

abbrev pub err_input_type_command : ℕ
err_input_type_command = 1003

-- The flag and the error code of a size from 1 to 256.
unfoldable pub size_valid : ℕ → List ℕ → Bool × ℕ
size_valid err val =
    let ret = leb 1 (length val) && leb (length val) 256 in (ret, if ret then 0 else err)

unfoldable pub output_type_result_is_constraint_valid : List ℕ → Bool × ℕ
unfolding size_valid
output_type_result_is_constraint_valid = size_valid err_output_type_result

unfoldable pub output_type_command_is_constraint_valid : List ℕ → Bool × ℕ
unfolding size_valid
output_type_command_is_constraint_valid = size_valid err_output_type_command

unfoldable pub input_type_command_is_constraint_valid : List ℕ → Bool × ℕ
unfolding size_valid
input_type_command_is_constraint_valid = size_valid err_input_type_command

unfoldable pub output_type_is_constraint_valid : OutputType → Bool × ℕ
unfolding output_type_command_is_constraint_valid output_type_result_is_constraint_valid
output_type_is_constraint_valid val =
    let (ret, err) = output_type_command_is_constraint_valid val.command in
    if ret then output_type_result_is_constraint_valid val.result else (ret, err)

unfoldable pub input_type_is_constraint_valid : InputType → Bool × ℕ
unfolding input_type_command_is_constraint_valid
input_type_is_constraint_valid val = input_type_command_is_constraint_valid val.command

-- `(long)nCount` where the array's bytes are counted: no bytes if it is negative.
abbrev pub count_of : ℤ → ℕ
count_of (pos n) = n
count_of (negsuc n) = 0

module _ (rt : BitCoding) where
  unfoldable pub append_bytes : List ℕ → BitStream → BitStream
  append_bytes [] strm = strm
  append_bytes (b ∷ bytes) strm = append_bytes bytes (rt.append_byte0 strm b)

  -- An octet string, once its constraint has been looked at or is not to be.
  unfoldable pub encode_octets : Bool × ℕ → List ℕ → BitStream → Bool × ℕ × BitStream
  unfolding append_bytes
  encode_octets (ret, err) val strm =
      if ret
      then (
        ret,
        err,
        append_bytes val
            (rt.encode_constraint_whole_number strm (pos (length val)) (pos 1) (pos 256)),
      )
      else (ret, err, strm)

  unfoldable pub output_type_result_encode : List ℕ → BitStream → ℕ → Bool → Bool × ℕ × BitStream
  unfolding encode_octets output_type_result_is_constraint_valid
  output_type_result_encode val strm err check_constraints =
      encode_octets
        (if check_constraints then output_type_result_is_constraint_valid val else (true, err)) val
        strm

  unfoldable pub output_type_command_encode : List ℕ → BitStream → ℕ → Bool → Bool × ℕ × BitStream
  unfolding encode_octets output_type_command_is_constraint_valid
  output_type_command_encode val strm err check_constraints =
      encode_octets
        (if check_constraints then output_type_command_is_constraint_valid val else (true, err)) val
        strm

  unfoldable pub input_type_command_encode : List ℕ → BitStream → ℕ → Bool → Bool × ℕ × BitStream
  unfolding encode_octets input_type_command_is_constraint_valid
  input_type_command_encode val strm err check_constraints =
      encode_octets
        (if check_constraints then input_type_command_is_constraint_valid val else (true, err)) val
        strm

  unfoldable pub output_type_encode : OutputType → BitStream → ℕ → Bool → Bool × ℕ × BitStream
  unfolding output_type_is_constraint_valid output_type_command_encode output_type_result_encode
  output_type_encode val strm err check_constraints =
      let (ret, err1) =
        if check_constraints then output_type_is_constraint_valid val else (true, err) in
      if ret
      then (let strm1 = rt.encode_unconstraint_whole_number strm val.invokeid in
          let (ret2, err2, strm2) = output_type_command_encode val.command strm1 err1 false in
          if ret2
          then output_type_result_encode val.result strm2 err2 false
          else (ret2, err2, strm2))
      else (ret, err1, strm)

  unfoldable pub input_type_encode : InputType → BitStream → ℕ → Bool → Bool × ℕ × BitStream
  unfolding input_type_is_constraint_valid input_type_command_encode
  input_type_encode val strm err check_constraints =
      let (ret, err1) =
        if check_constraints then input_type_is_constraint_valid val else (true, err) in
      if ret
      then (let strm1 = rt.encode_unconstraint_whole_number strm val.invokeid in
          input_type_command_encode val.command strm1 err1 false)
      else (ret, err1, strm)

  -- The loop over the bytes; after a failure the rest of the array is as it was.
  unfoldable pub read_bytes : ℕ → List ℕ → BitStream → Bool × List ℕ × BitStream
  read_bytes zero arr strm = (true, [], strm)
  read_bytes (suc n) arr strm =
      let (ret, b, strm1) = rt.read_byte strm in
      elim ret [
        | true ↦
            let (ret2, bytes, strm2) = read_bytes n (drop 1 arr) strm1 in (ret2, b ∷ bytes, strm2)
        | false ↦ (false, b ∷ take n (drop 1 arr), strm1)
      ]

  -- The flag, the error code, the bytes and the stream.
  unfoldable pub decode_octets : List ℕ → BitStream → Bool × ℕ × List ℕ × BitStream
  unfolding read_bytes
  decode_octets arr strm =
      let (ret, n_count, strm1) = rt.decode_constraint_whole_number strm (pos 1) (pos 256) in
      if ret
      then (let (ret2, bytes, strm2) = read_bytes (count_of n_count) arr strm1 in
          (ret2, if ret2 then 0 else err_insufficient_data, bytes, strm2))
      else (ret, err_insufficient_data, take (count_of n_count) arr, strm1)

  unfoldable pub output_type_result_decode : List ℕ → BitStream → Bool × ℕ × List ℕ × BitStream
  unfolding decode_octets
  output_type_result_decode arr strm = decode_octets arr strm

  unfoldable pub output_type_command_decode : List ℕ → BitStream → Bool × ℕ × List ℕ × BitStream
  unfolding decode_octets
  output_type_command_decode arr strm = decode_octets arr strm

  unfoldable pub input_type_command_decode : List ℕ → BitStream → Bool × ℕ × List ℕ × BitStream
  unfolding decode_octets
  input_type_command_decode arr strm = decode_octets arr strm

  unfoldable pub output_type_decode : OutputType → BitStream → Bool × ℕ × OutputType × BitStream
  unfolding output_type_command_decode output_type_result_decode
  output_type_decode val strm =
      let (ret, invokeid, strm1) = rt.decode_unconstraint_whole_number strm in
      let val1 = record val { invokeid = invokeid } in
      if ret
      then (let (ret2, err2, command, strm2) = output_type_command_decode val.command strm1 in
          let val2 = record val1 { command = command } in
          if ret2
          then (let (ret3, err3, result, strm3) = output_type_result_decode val.result strm2 in
              (ret3, err3, record val2 { result = result }, strm3))
          else (ret2, err2, val2, strm2))
      else (ret, err_insufficient_data, val1, strm1)

  unfoldable pub input_type_decode : InputType → BitStream → Bool × ℕ × InputType × BitStream
  unfolding input_type_command_decode
  input_type_decode val strm =
      let (ret, invokeid, strm1) = rt.decode_unconstraint_whole_number strm in
      let val1 = record val { invokeid = invokeid } in
      if ret
      then (let (ret2, err2, command, strm2) = input_type_command_decode val.command strm1 in
          (ret2, err2, record val1 { command = command }, strm2))
      else (ret, err_insufficient_data, val1, strm1)

-- The stream at the front of a buffer, as ENCODE_PDU and DECODE_PDU set it up.
unfoldable pub attached : List ℕ → BitStream
attached buf = record { buf = buf; count = buffer_ksize; current_byte = 0; current_bit = 0 }

unfoldable pub encoded : Bool × ℕ × BitStream → ℕ × List ℕ
encoded (ret, err, strm) = (err, take strm.current_byte strm.buf)

-- What protocol.c uses of the generated code. `input` and `output` are what the variables that are
-- decoded into hold before.
unfoldable pub messages_codec : BitCoding → InputType → OutputType → Codec
unfolding attached encoded input_type_encode input_type_decode output_type_encode output_type_decode
messages_codec rt input output = record {
  encode_input =
      λ val. encoded (input_type_encode rt val (attached (replicate buffer_ksize 0)) 0 true);
  decode_input =
      λ buf. let (_, err, val, _) = input_type_decode rt input (attached buf) in (err, val);
  encode_output =
      λ val. encoded (output_type_encode rt val (attached (replicate buffer_ksize 0)) 0 true);
  decode_output =
      λ buf. let (_, err, val, _) = output_type_decode rt output (attached buf) in (err, val);
}
