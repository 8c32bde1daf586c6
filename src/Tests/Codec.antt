-- ===== src/Tests/Codec.antt =====
-- The codec of internal/bfd/packet.go on concrete packets.
use gobfd.Common.{◌≡◌, refl, arith, inl, inr, take, replicate, ok}
use gobfd.Packet.Marshal.{marshal_control_packet}
use gobfd.Packet.Unmarshal.{
  unmarshal_control_packet, decode_header, decode_body, validate_header, validate_discriminators,
  unmarshal_auth,
}
use gobfd.Packet.Header.{FitsWire}
use gobfd.Packet.RoundTrip.{IsValid, unmarshal-marshal}
use gobfd.Packet.Validation.{IsChecked, Section, unmarshal_checks}
use gobfd.Tests.{hello, hello_bytes, signed_hello}

signed_hello-IsValid : IsValid signed_hello
signed_hello-IsValid = record {
  fits = record {
    version_fits = omega arith;
    diag_fits = omega arith;
    state_fits = omega arith;
    detect_mult_fits = omega arith;
    my_discriminator_fits = omega arith;
    your_discriminator_fits = omega arith;
    desired_fits = omega arith;
    required_fits = omega arith;
    echo_fits = omega arith;
  };
  version_one = refl;
  mult_set = omega arith;
  not_multipoint = refl;
  my_set = omega arith;
  your_set = inr (inl refl);
  auth_agrees = (refl, refl, omega arith, refl);
}

unmarshal-marshal_example :
    ((marshal_control_packet signed_hello (replicate 60 255)).1 ≡ ok 48)
    × (unmarshal_control_packet (marshal_control_packet signed_hello (replicate 60 255)).0
        ≡ ok signed_hello)
    × (unmarshal_control_packet (take 48 (marshal_control_packet signed_hello (replicate 60 255)).0)
        ≡ ok signed_hello)
unmarshal-marshal_example =
    unmarshal-marshal signed_hello (replicate 60 255) signed_hello-IsValid (omega arith)

hello_decodes : unmarshal_control_packet hello_bytes ≡ ok hello
unfolding unmarshal_control_packet decode_header decode_body validate_header validate_discriminators
    unmarshal_auth
hello_decodes = refl

unmarshal_checks_example : IsChecked hello 24 × FitsWire hello × Section hello_bytes hello
unmarshal_checks_example = unmarshal_checks hello_bytes hello (omega arith) hello_decodes
